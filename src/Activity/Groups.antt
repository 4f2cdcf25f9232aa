-- ===== src/Activity/Groups.antt =====
-- application/src/server/activity.rs: the groups of the maps, and what `close` makes of one.
use ailes.Common.{Bool, true, false, Option, none, some, List, [], ◌∷◌, ◌++◌, ◌≡◌, refl, ◌∙◌, arith}
use ailes.Common.Machine.{Uuid}
use ailes.Activity.{
  ActivityEvent, Metadata, Activity, Kind, sftp, upload, other, kind_of, files_of, is_there,
  put_files, kind, extract_files, finalize, finalize_files, Group, begin, extend, close,
}

abbrev pub is_other : Kind → Bool
is_other (sftp event user) = false
is_other (upload user directory) = false
is_other other = true

module _ {J : Type 0} where
  abbrev pub has_files : Option (Metadata J) → Bool
  has_files none = false
  has_files (some metadata) = is_there metadata.files

  kind_of-has_files :
      (event : ActivityEvent) (user : Option Uuid) (metadata : Option (Metadata J))
      → is_other (kind_of event user metadata) ≡ false
      → has_files metadata ≡ true
  kind_of-has_files event user none h = ground arith
  kind_of-has_files event user (some metadata) h = ground arith

  -- The first activity of a group has its kind, and files of it are not lost where the list is empty.
  abbrev pub IsGroup : Kind → Group J → Type 0
  IsGroup k group =
      (kind group.base ≡ k)
      × (has_files group.base.metadata ≡ true)
      × (group.files ≡ [] → extract_files group.base ≡ [])

  pub begin-IsGroup : (a : Activity J) → is_other (kind a) ≡ false → IsGroup (kind a) (begin a)
  unfolding begin kind
  begin-IsGroup a h = (refl, kind_of-has_files a.event a.user a.metadata h, λ e. e)

  nil-append : (xs ys : List J) → xs ++ ys ≡ [] → xs ≡ []
  nil-append [] ys h = refl
  nil-append (x ∷ xs) ys h = ground arith

  pub extend-IsGroup :
      (k : Kind) (a : Activity J) (group : Group J) → IsGroup k group → IsGroup k (extend a group)
  unfolding extend
  extend-IsGroup k a group (same, has, full) =
      (same, has, λ e. full (nil-append group.files (extract_files a) e))

  put_files-kind :
      (event : ActivityEvent) (user : Option Uuid) (files : List J) (metadata : Option (Metadata J))
      → kind_of event user (put_files files metadata) ≡ kind_of event user metadata
  put_files-kind event user files none = refl
  put_files-kind event user files (some metadata) = ground arith

  finalize-kind : (files : List J) (a : Activity J) → kind (finalize files a) ≡ kind a
  unfolding kind
  finalize-kind [] a = refl
  finalize-kind (file ∷ files) a = put_files-kind a.event a.user (file ∷ files) a.metadata

  files_of-put_files :
      (files : List J) (metadata : Option (Metadata J))
      → has_files metadata ≡ true
      → files_of (put_files files metadata) ≡ files
  files_of-put_files files none h = ground arith
  files_of-put_files files (some metadata) h = ground arith

  finalize-files :
      (files : List J) (a : Activity J)
      → has_files a.metadata ≡ true
      → (files ≡ [] → extract_files a ≡ [])
      → extract_files (finalize files a) ≡ files
  unfolding extract_files
  finalize-files [] a h full = full refl
  finalize-files (file ∷ files) a h full = files_of-put_files (file ∷ files) a.metadata h

  -- A closed group has its kind and its files.
  pub close-kind : (k : Kind) (group : Group J) → IsGroup k group → kind (close group) ≡ k
  unfolding close finalize_files
  close-kind k group (same, has, full) = finalize-kind group.files group.base ∙ same

  pub close-files :
      (k : Kind) (group : Group J) → IsGroup k group → extract_files (close group) ≡ group.files
  unfolding close finalize_files
  close-files k group (same, has, full) = finalize-files group.files group.base has full
