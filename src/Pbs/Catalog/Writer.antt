-- ===== src/Pbs/Catalog/Writer.antt =====
-- pbs-client/src/catalog.rs: `CatalogWriter`. The stack of open directories has the innermost first,
-- and an operation gives the writer it leaves, with the error if it fails.
use ailes.Common.{
  ℕ, zero, suc, ◌+◌, ◌/◌, ◌%◌, List, [], ◌∷◌, ◌++◌, length, Bool, true, false, if◌then◌else◌, not,
}
use ailes.Common.Int.{ℤ}
use ailes.Common.Machine.{word}
use ailes.Common.Result.{Result, ok, err}
use ailes.Pbs.Catalog.{
  catalog_magic, Attribute, directory, file, symlink, hardlink, block_device, char_device, fifo,
  socket, DirectoryInfo, new_directory, encode,
}

-- `std::io::Write`: whether the bytes were all written, and the sink then.
pub record Sink (W : Type 0) : Type 0 where
  pub write_all : W → List ℕ → W × Bool
  pub flush : W → W × Bool

pub data WriteError : Type 0 where
  io underflow cannot_end_root unbalanced : WriteError

pub record CatalogWriter (W : Type 0) : Type 0 where
  pub writer : W
  pub stack : List DirectoryInfo
  pub position : ℕ

-- `to_le_bytes` of a `u64`.
abbrev pub le_bytes : ℕ → ℕ → List ℕ
le_bytes zero v = []
le_bytes (suc n) v = (v % 256) ∷ le_bytes n (v / 256)

-- What an operation leaves, and `Ok(())` or its error.
abbrev pub After : Type 0 → Type 0
After W = CatalogWriter W × Result (Unit {0}) WriteError

abbrev pub push_entry : List ℕ → Attribute → DirectoryInfo → DirectoryInfo
push_entry name attribute dir = record dir {
  entries = dir.entries ++ record { name = name; attribute = attribute } ∷ [];
}

module _ {W : Type 0} where
  -- `add`: an entry for `current`, the last open directory.
  add_to : List DirectoryInfo → List ℕ → Attribute → CatalogWriter W → After W
  add_to [] name attribute c = (c, err underflow)
  add_to (dir ∷ outer) name attribute c =
      (record c { stack = push_entry name attribute dir ∷ outer }, ok tt)

  unfoldable pub add : List ℕ → Attribute → CatalogWriter W → After W
  unfolding add_to
  add name attribute c = add_to c.stack name attribute c

  unfoldable pub add_file : List ℕ → ℕ → ℤ → CatalogWriter W → After W
  add_file name size mtime c = add name (file size mtime) c

  unfoldable pub add_symlink : List ℕ → CatalogWriter W → After W
  add_symlink name c = add name symlink c

  unfoldable pub add_hardlink : List ℕ → CatalogWriter W → After W
  add_hardlink name c = add name hardlink c

  unfoldable pub add_block_device : List ℕ → CatalogWriter W → After W
  add_block_device name c = add name block_device c

  unfoldable pub add_char_device : List ℕ → CatalogWriter W → After W
  add_char_device name c = add name char_device c

  unfoldable pub add_fifo : List ℕ → CatalogWriter W → After W
  add_fifo name c = add name fifo c

  unfoldable pub add_socket : List ℕ → CatalogWriter W → After W
  add_socket name c = add name socket c

  unfoldable pub start_directory : List ℕ → CatalogWriter W → CatalogWriter W
  start_directory name c = record c { stack = new_directory name ∷ c.stack }

module _ {W : Type 0} (sink : Sink W) where
  unfoldable pub new : W → Result (CatalogWriter W) WriteError
  new writer =
      let (writer', done) = sink.write_all writer catalog_magic in
      if done
      then ok (record {
        writer = writer';
        stack = new_directory [] ∷ [];
        position = length catalog_magic;
      })
      else err io

  unfoldable pub write_all : CatalogWriter W → List ℕ → CatalogWriter W × Bool
  write_all c bytes =
      let (writer', done) = sink.write_all c.writer bytes in
      if done
      then (record c { writer = writer'; position = (c.position + length bytes) % word }, true)
      else (record c { writer = writer' }, false)

  -- The rest of `end_directory`, once the directory's table was written or not.
  link : List ℕ → ℕ → CatalogWriter W × Bool → After W
  link name start (c, done) = if done then add name (directory start) c else (c, err io)

  -- The popped directory is gone also where the operation fails.
  end_popped : List DirectoryInfo → CatalogWriter W → After W
  unfolding link
  end_popped [] c = (c, err underflow)
  end_popped (dir ∷ []) c = (record c { stack = [] }, err cannot_end_root)
  end_popped (dir ∷ parent ∷ outer) c =
      link dir.name c.position
        (write_all (record c { stack = parent ∷ outer }) (encode dir c.position))

  unfoldable pub end_directory : CatalogWriter W → After W
  unfolding end_popped
  end_directory c = end_popped c.stack c

  -- The rest of `finish`: the trailer, and the flush.
  trail : ℕ → CatalogWriter W × Bool → Result W WriteError
  trail start (c, false) = err io
  trail start (c, true) =
      let (c', done) = write_all c (le_bytes 8 start) in
      let (writer', flushed) = sink.flush c'.writer in
      if not done then err io else if flushed then ok writer' else err io

  finish_stack : List DirectoryInfo → CatalogWriter W → Result W WriteError
  unfolding trail
  finish_stack [] c = err unbalanced
  finish_stack (root ∷ []) c =
      trail c.position (write_all (record c { stack = [] }) (encode root c.position))
  finish_stack (_ ∷ _ ∷ _) c = err unbalanced

  unfoldable pub finish : CatalogWriter W → Result W WriteError
  unfolding finish_stack
  finish c = finish_stack c.stack c

-- `Vec<u8>`, a sink that takes everything.
abbrev pub vec_sink : Sink (List ℕ)
vec_sink = record { write_all = λ w bytes. (w ++ bytes, true); flush = λ w. (w, true) }
