-- ===== src/Js.antt =====
-- What the source uses of the JavaScript platform: insertion-ordered maps, stable sorting,
-- URLSearchParams and the decimal form of numbers.
pub mod Map
pub mod Sort
pub mod Params
pub mod Ascending
pub mod Grouping
pub mod Number
pub mod Ranking
pub mod Float
