-- ===== src/Tests.antt =====
-- The theorems on concrete inputs: two free drivers, a busy one and a pending order, over whole
-- numbers as floats.
mod Data
mod CoreTests
mod ApiTests
mod WorkerTests
mod OverlapTests
mod ExclusiveTests
mod StartTests
mod QueueTests
mod AnnounceTests
mod BookedTests
mod PublishTests
mod SystemTests
