-- ===== src/Models/Words.antt =====
-- The words of the enumerations: which text stands for which value.
use s_size_store.Prelude.{◌≡◌, ◌↔◌, some, ==_iff, arith, nat_eq, list_eq}
use s_size_store.Bytes.{Bytes, codes}
use s_size_store.Models.{
  ItemStatus, draft, published, archived, status_to_string, item_status_from_string,
}

-- A text is read as a status exactly when it is the word that is written for that status.
pub item_status_from_string_iff :
    (s : Bytes) (st : ItemStatus)
    → (item_status_from_string s ≡ some st) ↔ (s ≡ status_to_string st)
unfolding item_status_from_string status_to_string
item_status_from_string_iff s draft =
    ground
      (arith, ==_iff s (codes "draft"), ==_iff s (codes "published"), ==_iff s (codes "archived"))
item_status_from_string_iff s published =
    ground
      (arith, ==_iff s (codes "draft"), ==_iff s (codes "published"), ==_iff s (codes "archived"))
item_status_from_string_iff s archived =
    ground
      (arith, ==_iff s (codes "draft"), ==_iff s (codes "published"), ==_iff s (codes "archived"))
