-- ===== src/Journal/Store.antt =====
-- `ActionJournal` (action_journal.py) by parts: its tables, the methods that write, those that read.
mod Tables
mod Methods
mod Queries
unfoldable pub use Tables.*
unfoldable pub use Methods.*
unfoldable pub use Queries.*
