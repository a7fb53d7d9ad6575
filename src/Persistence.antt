-- ===== src/Persistence.antt =====
-- The clients of databases (presistence): Redis and MySQL. The client libraries, hiredis and
-- libmysql, are records of functions on the state of everything behind them.
pub mod Names
pub mod Numbers
pub mod Redis
pub mod Mysql
