-- ===== src/Events/Storing/Concurrency.antt =====
-- The worker takes up to ten jobs at a time: their insertions may come in any order.
use mathlib.Core.List.{Permᴰ}
use mathlib.Core.List.Permᴰ
use eventify.Common.{List}
