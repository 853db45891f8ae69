-- ===== src/Queue/Waiting.antt =====
-- What holds of the queues of a session of core/engine.go whatever way the goroutines interleave.
use cc2wechat.Prelude.{List}
