-- ===== src/DList.antt =====
-- DList.h and DList.cpp: the circular list of the connections by their last activity, the least
-- recent first. It is intrusive: a node is a number here, and the links of all nodes are two maps.
pub mod Ring
use redis_database_basic_imp.Prelude.{ℕ, Bool, ◌||◌, ◌==◌, if◌then◌else◌}

-- `prev` and `next` of every node; the number 0 is the null pointer.
pub record Links : Type 0 where
  pub prev : ℕ → ℕ
  pub next : ℕ → ℕ

-- `node->link = to`
abbrev pub write : (ℕ → ℕ) → ℕ → ℕ → ℕ → ℕ
write link node to n = if node == n then to else link n

abbrev pub d_list_init : Links → ℕ → Links
d_list_init l node = record { prev = write l.prev node node; next = write l.next node node }

abbrev pub d_list_empty : Links → ℕ → Bool
d_list_empty l node = (l.next node == node) || (l.next node == 0)

-- The links of `node` itself stay.
abbrev pub dlist_detach : Links → ℕ → Links
dlist_detach l node =
    let before = l.prev node in
    let after = l.next node in
    record { prev = write l.prev after before; next = write l.next before after }

abbrev pub list_insert_before : Links → ℕ → ℕ → Links
list_insert_before l target node =
    let before = l.prev target in
    record {
      prev = write (write l.prev node before) target node;
      next = write (write l.next before node) node target;
    }
