-- ===== src/Browser.antt =====
-- The runner of a browser session: browser/loop.py.
pub mod Loop
