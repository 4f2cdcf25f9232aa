-- ===== src/Usage/Lookup.antt =====
-- application/src/server/filesystem/usage.rs: one node's entries as a map from names to nodes.
use ailes.Common.{◌≡◌, ◌≢◌, some, arith}
use ailes.Common.Names.{Name, name_cmp, name_cmp_self, name_cmp-eq, name_cmp_trans_gt}
use ailes.Usage.Tree.{DiskUsage, Entries, nil, entry, empty, upsert_entry, get_entry}
use Prim.Native.Nat.{eq}
use mathlib.Core.Option

-- An upsert acts on the node of its key, a new one where there is none.
pub get_entry-upsert_entry_self :
    (key : Name) (f : DiskUsage → DiskUsage) (es : Entries)
    → get_entry key (upsert_entry key f es) ≡ some (f (Option.get_or (get_entry key es) empty))
unfolding get_entry upsert_entry
get_entry-upsert_entry_self key f nil = ground (arith, name_cmp_self key)
get_entry-upsert_entry_self key f (entry n d es) =
    ground (arith, name_cmp_self key, get_entry-upsert_entry_self key f es)

pub get_entry-upsert_entry_ne :
    (key j : Name) (f : DiskUsage → DiskUsage) (es : Entries)
    → name_cmp key j ≢ eq
    → get_entry j (upsert_entry key f es) ≡ get_entry j es
unfolding get_entry upsert_entry
get_entry-upsert_entry_ne key j f nil h = ground arith
get_entry-upsert_entry_ne key j f (entry n d es) h =
    ground
      (arith, get_entry-upsert_entry_ne key j f es, name_cmp-eq n key, name_cmp_trans_gt n key j)
