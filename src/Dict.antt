-- ===== src/Dict.antt =====
-- Python's `dict` as it is used by the components: insertion ordered, a write to a present key
-- keeps its place, a new key goes to the end.
mod Laws
pub use Laws.*
mod Defs
pub use Defs.{Dict}
unfoldable pub use Defs.{get, get_or, put, remove, keys, values, has}
