-- ===== src/Runtime/Backoff.antt =====
-- internal/service/service.go: `apiBackoff`, a count of the calls to be skipped.
use yzboard_node.Prelude.{ℕ, zero, suc, ◌*◌, Bool, true, false, if◌then◌else◌, ltb, leb}

-- `shouldSkip`
unfoldable pub should_skip : ℕ → ℕ × Bool
should_skip zero = (zero, false)
should_skip (suc n) = (n, true)

-- `onSuccess`
unfoldable pub on_success : ℕ → ℕ
on_success skip_remaining = 0

-- `onFailure`
unfoldable pub on_failure : ℕ → ℕ
on_failure skip_remaining =
    if leb skip_remaining 0
    then 1
    else if ltb skip_remaining 8
    then skip_remaining * 2
    else skip_remaining
