-- ===== src/Examples.antt =====
-- The vertex programs of src/examples.
pub mod Doubles
pub mod Text
pub mod Shortestpath
pub mod Katz
pub mod Adsorption
pub mod Pagerank
pub mod Ranks
pub mod Laws
pub mod Distances
pub mod Mains
pub mod Unset
