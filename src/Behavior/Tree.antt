-- ===== src/Behavior/Tree.antt =====
-- modules/processing/behavior.py, `ProcessTree`: the processes in the order of their first call, and
-- the tree of them. What an entry holds besides its two ids (name, module_path, threads, environ) is
-- of any type, with the comparison of its values as a parameter.
use capev.Base.{
  if◌then◌else◌, ◌==◌, ◌&&◌, ℕ, List, [], ◌∷◌, ◌++◌, Bool, true, false, not, any, keep,
}
pub mod Nodes
pub mod Once
pub mod Linked
pub mod Placed

pub record Entry (D : Type 0) : Type 0 where
  pub pid : ℕ
  pub parent_id : ℕ
  pub details : D

-- A list of nodes: the first one's entry and children, and the nodes after it.
pub data Forest (D : Type 0) : Type 0 where
  nil : Forest D
  tree : Entry D → Forest D → Forest D → Forest D

-- The list after a call of `add_node`, and whether the node was added.
pub record Added (D : Type 0) : Type 0 where
  pub nodes : Forest D
  pub ret : Bool

module _ {D : Type 0} where
  -- `list.append`
  unfoldable pub append : Entry D → Forest D → Forest D
  append n nil = tree n nil nil
  append n (tree p children rest) = tree p children (append n rest)

  -- `process["children"]` after the call for the children; the loop goes on if that failed.
  unfoldable pub among_children : Entry D → Forest D → Added D → Added D → Added D
  among_children p rest children later =
      if children.ret
      then record { nodes = tree p children.nodes rest; ret = true }
      else record { nodes = tree p children.nodes later.nodes; ret = later.ret }

  unfoldable pub add_node : Entry D → Forest D → Added D
  unfolding append among_children
  add_node node nil = record { nodes = nil; ret = false }
  add_node node (tree p children rest) =
      let deeper = among_children p rest (add_node node children) (add_node node rest) in
      if p.pid == node.parent_id
      then record { nodes = tree p (append node children) rest; ret = true }
      else deeper

  abbrev pub has_pid : ℕ → List (Entry D) → Bool
  has_pid k processes = any (λ entry. entry.pid == k) processes

  unfoldable pub event_apicall : Entry D → List (Entry D) → List (Entry D)
  event_apicall process processes =
      if has_pid process.pid processes then processes else processes ++ (process ∷ [])

  -- `BehaviorAnalysis.run` hands every logged call to `event_apicall`, with its process.
  unfoldable pub collect : List (Entry D) → List (Entry D) → List (Entry D)
  unfolding event_apicall
  collect [] processes = processes
  collect (process ∷ calls) processes = collect calls (event_apicall process processes)

  -- The second loop of `run`, over the children.
  unfoldable pub place : List (Entry D) → Forest D → Forest D
  unfolding add_node append
  place [] nodes = nodes
  place (process ∷ children) nodes =
      let added = add_node process nodes in
      place children (if added.ret then added.nodes else append process nodes)

  -- `self.tree.append` for each orphan.
  unfoldable pub roots : List (Entry D) → Forest D
  roots [] = nil
  roots (process ∷ orphans) = tree process nil (roots orphans)

  module _ (same : D → D → Bool) where
    -- `process_again == process`; the children of both are empty here.
    abbrev pub same_entry : Entry D → Entry D → Bool
    same_entry a b = a.pid == b.pid && (a.parent_id == b.parent_id && same a.details b.details)

    unfoldable pub has_parent : List (Entry D) → Entry D → Bool
    has_parent processes process =
        any (λ again. not (same_entry again process) && again.pid == process.parent_id) processes

    unfoldable pub run : List (Entry D) → Forest D
    unfolding has_parent place roots
    run processes =
        let orphans = keep (λ process. not (has_parent processes process)) processes in
        place (keep (has_parent processes) processes) (roots orphans)
