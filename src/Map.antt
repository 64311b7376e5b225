-- ===== src/Map.antt =====
-- Go's map type. Iteration visits the entries in the order of the list, which stands for the order
-- that the runtime chooses: what is proved for every list holds for every order of iteration.
mod Laws
unfoldable pub use Laws.*
