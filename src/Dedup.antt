-- ===== src/Dedup.antt =====
-- `MessageDedup` of core/dedup.go. A call reads the clock once: `now` is its time in nanoseconds.
pub mod Window
use cc2wechat.Prelude.{ℕ, ◌+◌, ◌-◌, ◌*◌, String, Bool, true, false, [], ltb, ◌==◌, if◌then◌else◌}
use cc2wechat.Prelude.GoMap.{GoMap, has, put, delete_if}

-- 60 seconds.
abbrev pub dedup_ttl : ℕ
dedup_ttl = 60 * 1_000_000_000

-- `time.Now()` of process start, and the two seconds of grace.
unfoldable pub is_old_message : ℕ → ℕ → Bool
is_old_message start_time msg_time = ltb (msg_time + 2 * 1_000_000_000) start_time

pub record MessageDedup : Type 0 where
  pub seen : GoMap ℕ

abbrev pub empty : MessageDedup
empty = record { seen = [] }

-- `now.Sub(t) > dedupTTL`
unfoldable pub is_expired : ℕ → ℕ → Bool
is_expired now t = ltb dedup_ttl (now - t)

unfoldable pub is_duplicate : String → ℕ → MessageDedup → MessageDedup × Bool
is_duplicate msg_id now d =
    if msg_id == ""
    then (d, false)
    else (let kept = delete_if (λ _. is_expired now) d.seen in
        if has msg_id kept
        then (record d { seen = kept }, true)
        else (record d { seen = put msg_id now kept }, false))
