-- ===== src/Client/Main/Faults.antt =====
-- A script whose size is a multiple of the page size: mmap gives its bytes with no NUL behind them.
