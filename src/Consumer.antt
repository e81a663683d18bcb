-- ===== src/Consumer.antt =====
-- kemi/consumer.py: the money side of jobs. The chunk scheduler is in Scheduler.
pub mod Hiring
pub mod Stream
pub mod Replies
pub mod Direct
pub mod Job
pub mod Providers
mod Tests
