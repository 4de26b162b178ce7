-- ===== src/Common/Trees.antt =====
-- What a log's fields mean: a map of keys to values, and a list of values, of which a leaf is its bytes.
use zapwire.Common.Lists.{Bytes}

mutual
  pub data Node : Type 0 where
    leaf : Bytes → Node
    tree : Pairs → Node
    row : Nodes → Node

  pub data Pairs : Type 0 where
    no_pair : Pairs
    pair : Bytes → Node → Pairs → Pairs

  pub data Nodes : Type 0 where
    no_node : Nodes
    node : Node → Nodes → Nodes
