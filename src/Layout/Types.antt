-- ===== src/Layout/Types.antt =====
-- frontend/layout/lib/types.ts: the data of the layout tree.
--
-- The tree is a value. The objects of the program are found again by `id`, a random UUID; an
-- object that the root does not reach is not represented. `children?` and `data?` are both
-- optional in the source, so a node may have neither or both. Sizes are whole numbers.
pub mod Nodes
