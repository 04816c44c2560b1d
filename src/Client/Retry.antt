-- ===== src/Client/Retry.antt =====
-- The transport of the client: `RetryRoundTripper` and its helpers of pkg/proxmox/connection.go.
use kubemox.Base.{
  Bool, Bool-cases, Text, arith, bytes, contains, false, if◌then◌else◌, inl, inr, ltb, suc, sym,
  text_eq, true, zero, ℕ, ◌+◌, ◌-◌, ◌<◌, ◌||◌, ◌≡◌, ◌≤◌,
}

-- The answer of the transport below: a response or the text of an error.
pub data Reply : Type 0 where
  response : ℕ → Reply
  failed : Text → Reply

-- `isRetryableMethod`
unfoldable pub is_retryable_method : Text → Bool
is_retryable_method method = text_eq method (bytes "GET") || text_eq method (bytes "HEAD")

-- `isRetriableError`
unfoldable pub is_retriable_error : Text → Bool
is_retriable_error msg =
    contains msg (bytes "http: server closed idle connection")
    || (contains msg (bytes "EOF")
        || (contains msg (bytes "unexpected end of JSON input")
            || contains msg (bytes "connection reset by peer")))

-- Whether the loop goes on after a reply.
unfoldable pub goes_on : Reply → Bool
goes_on (response _) = false
goes_on (failed msg) = is_retriable_error msg

-- The loop, from the reply of attempt `i` and with `n` more to go: the last reply, and the attempts made.
-- `transport i` is what the transport below answers the attempt `i`.
unfoldable pub attempts : (ℕ → Reply) → ℕ → ℕ → Reply × ℕ
attempts transport i zero = (transport i, suc i)
attempts transport i (suc n) =
    let rest = attempts transport (suc i) n in
    if goes_on (transport i) then rest else (transport i, suc i)

-- `RoundTrip`, with `Retries`
unfoldable pub round_trip : ℕ → Text → (ℕ → Reply) → Reply × ℕ
round_trip retries method transport =
    if is_retryable_method method then attempts transport 0 retries else attempts transport 0 0

attempts_lem :
    (transport : ℕ → Reply) (i n : ℕ)
    → (i < (attempts transport i n).1)
      × ((attempts transport i n).1 ≤ suc (i + n))
      × ((attempts transport i n).0 ≡ transport ((attempts transport i n).1 - 1))
      × ((goes_on (attempts transport i n).0 ≡ true) → (attempts transport i n).1 ≡ suc (i + n))
unfolding attempts
attempts_lem transport i zero = ground arith
attempts_lem transport i (suc n) = ground (arith, attempts_lem transport (suc i) n)

retried_lem :
    (transport : ℕ → Reply) (i n j : ℕ)
    → i ≤ j
    → suc j < (attempts transport i n).1
    → goes_on (transport j) ≡ true
unfolding attempts
retried_lem transport i zero j h k = ground arith
retried_lem transport i (suc n) j h k = elim (Bool-cases (ltb i j)) [
  | inl e ↦ ground (arith, retried_lem transport (suc i) n j)
  | inr e ↦ let same : i ≡ j = ground arith in simp (sym same) (ground arith)
]

-- A request is sent at least once and at most once more than `Retries`, the reply is that of the last
-- attempt, each attempt before it ended in a transient error, and the reply is such an error only where
-- the method is not retried or the attempts are used up. A method other than GET and HEAD is sent once.
pub round_trip_lem :
    (retries : ℕ) (method : Text) (transport : ℕ → Reply)
    → (0 < (round_trip retries method transport).1)
      × ((round_trip retries method transport).1 ≤ suc retries)
      × ((round_trip retries method transport).0
          ≡ transport ((round_trip retries method transport).1 - 1))
      × ((j : ℕ) → suc j < (round_trip retries method transport).1 → goes_on (transport j) ≡ true)
      × (is_retryable_method method ≡ true
          → goes_on (round_trip retries method transport).0 ≡ true
          → (round_trip retries method transport).1 ≡ suc retries)
      × (is_retryable_method method ≡ false → (round_trip retries method transport).1 ≡ 1)
unfolding round_trip
round_trip_lem retries method transport = elim (Bool-cases (is_retryable_method method)) [
  | inl e ↦ ground (arith, attempts_lem transport 0 retries, retried_lem transport 0 retries)
  | inr e ↦ ground (arith, attempts_lem transport 0 0, retried_lem transport 0 0)
]
