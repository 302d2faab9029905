-- ===== src/Pagination.antt =====
-- app/shared/pagination.py: pages of a list, and the links between them.
pub mod Defs
pub mod Pages
pub mod Sorting
mod Tests
