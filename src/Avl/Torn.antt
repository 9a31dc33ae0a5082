-- ===== src/Avl/Torn.antt =====
-- What `avl_fix` leaves above a subtree that it turned.
use redis_database_basic_imp.Avl.Tree.{Tree}
