-- ===== src/Client/Retry.antt =====
-- `doWithRetry` of client.go: one request, again after a transient failure.
use go_ds_s3_walrus.Common.{
  ℕ, zero, suc, ◌+◌, ◌≤◌, Bool, false, ◌≡◌, refl, arith, leb, ◌==◌, ◌&&◌, ◌||◌, if◌then◌else◌, inl,
  inr, Bool-cases, Option, none, some,
}
use go_ds_s3_walrus.Common.Int.{ℤ}
use go_ds_s3_walrus.Common.Result.{
  Error, cancelled, failure, Result, ok, err, Exec, Result-cases, handle, raise, pure,
}
use go_ds_s3_walrus.Index.{Bytes}
use go_ds_s3_walrus.Client.Backoff.{backoff}

-- An HTTP response: its status, and what reading its body gives.
pub record Response : Type 0 where
  pub status : ℕ
  pub body : Result Bytes

unfoldable pub is_retryable_status : ℕ → Bool
is_retryable_status code = code == 429 || (leb 500 code && leb code 599)

-- Parameters: whether the context is cancelled, the wait, the random source, and one attempt, over
-- the state of the network.
module _ {N : Type 0} (is_cancelled : N → Bool) (sleep : ℤ → Exec N (Unit {0})) (random : N → ℕ)
    (attempt : Exec N Response) where
  -- A response that is not transient is returned, and everything else is an error to remember.
  classify : Response → Result Response
  classify res = if is_retryable_status res.status then err (failure "transient status") else ok res

  attempt_once : Exec N Response
  unfolding classify
  attempt_once = handle attempt (λ res n. (classify res, n)) raise

  wait : Option ℤ → Exec N (Unit {0})
  wait none = raise (failure "panic")
  wait (some d) = sleep d

  -- The rounds from `i`, of which `left` are left.
  unfoldable pub retry_from : ℕ → ℕ → Error → Exec N Response
  unfolding attempt_once wait
  retry_from zero i last n = (err last, n)
  retry_from (suc left) i last n =
      let more = λ (e : Error) (m : N).
        handle (wait (backoff i (random m))) (λ _. retry_from left (i + 1) e) raise m in
      let tried = handle attempt_once pure (λ e m. if left == 0 then (err e, m) else more e m) n in
      if is_cancelled n then (err cancelled, n) else tried

  -- `i <= maxRetries`: one attempt more than there are retries.
  unfoldable pub do_with_retry : ℕ → Exec N Response
  do_with_retry max_retries = retry_from (suc max_retries) 0 cancelled

  attempt_once-final :
      (n : N) (res : Response)
      → (attempt_once n).0 ≡ ok res
      → is_retryable_status res.status ≡ false
  unfolding attempt_once classify
  attempt_once-final n res h = elim (Result-cases (attempt n).0) [
    | inr (e, bad) ↦ absurd (cc (rw bad at h))
    | inl (r, good) ↦ elim (Bool-cases (is_retryable_status r.status)) [
      | inl again ↦ absurd (cc (rw (good, again) at h))
      | inr last ↦ let same : res ≡ r = cc (rw (good, last) at h) in rw same last
    ]
  ]

  retry_from-final :
      (left i : ℕ) (last : Error) (n : N) (res : Response)
      → (retry_from left i last n).0 ≡ ok res
      → is_retryable_status res.status ≡ false
  unfolding retry_from
  retry_from-final zero i last n res h = absurd (cc h)
  retry_from-final (suc left) i last n res h = elim (Bool-cases (is_cancelled n)) [
    | inl stopped ↦ absurd (cc (rw stopped at h))
    | inr on ↦ elim (Result-cases (attempt_once n).0) [
      | inl (r, good) ↦
          let same : res ≡ r = cc (rw (on, good) at h) in rw same (attempt_once-final n r good)
      | inr (e, bad) ↦ elim (Bool-cases (left == 0)) [
        | inl spent ↦ absurd (cc (rw (on, bad, spent) at h))
        | inr more ↦
            elim (Result-cases
              (wait (backoff i (random (attempt_once n).1)) (attempt_once n).1).0) [
                | inr (x, stopped) ↦ absurd (cc (rw (on, bad, more, stopped) at h))
                | inl (u, woken) ↦
                    retry_from-final left (i + 1) e
                      (wait (backoff i (random (attempt_once n).1)) (attempt_once n).1).1 res
                      (rw (on, bad, more, woken) at h)
              ]
      ]
    ]
  ]

  -- How often the server is asked, for a count that only an attempt raises, and by one at most: no
  -- more often than there are rounds.
  module _ (count : N → ℕ) (one : (n : N) → count (attempt n).1 ≤ count n + 1)
      (free : (d : ℤ) (n : N) → count (sleep d n).1 ≡ count n) where
    attempt_once-count : (n : N) → count (attempt_once n).1 ≤ count n + 1
    unfolding attempt_once
    attempt_once-count n = elim (Result-cases (attempt n).0) [
      | inl (r, good) ↦ rw good (one n)
      | inr (e, bad) ↦ rw bad (one n)
    ]

    wait-count : (d : Option ℤ) (n : N) → count (wait d n).1 ≡ count n
    unfolding wait
    wait-count none n = refl
    wait-count (some d) n = free d n

    retry_from-count :
        (left i : ℕ) (last : Error) (n : N) → count (retry_from left i last n).1 ≤ count n + left
    unfolding retry_from
    retry_from-count zero i last n = omega arith
    retry_from-count (suc left) i last n = elim (Bool-cases (is_cancelled n)) [
      | inl stopped ↦ rw stopped (omega arith)
      | inr on ↦ elim (Result-cases (attempt_once n).0) [
        | inl (r, good) ↦ rw (on, good) (omega (arith, attempt_once-count n))
        | inr (e, bad) ↦ elim (Bool-cases (left == 0)) [
          | inl spent ↦ rw (on, bad, spent) (omega (arith, attempt_once-count n))
          | inr more ↦
              elim (Result-cases
                (wait (backoff i (random (attempt_once n).1)) (attempt_once n).1).0) [
                  | inr (x, stopped) ↦
                      rw (on, bad, more, stopped)
                        (omega (
                          arith,
                          attempt_once-count n,
                          wait-count (backoff i (random (attempt_once n).1)) (attempt_once n).1,
                        ))
                  | inl (u, woken) ↦
                      rw (on, bad, more, woken)
                        (omega (
                          arith,
                          attempt_once-count n,
                          wait-count (backoff i (random (attempt_once n).1)) (attempt_once n).1,
                          retry_from-count left (i + 1) e
                              (wait (backoff i (random (attempt_once n).1)) (attempt_once n).1).1,
                        ))
                ]
        ]
      ]
    ]

    -- A request makes at most one attempt more than there are retries, and what it returns is never
    -- a transient response (429 or 5xx), for every network, clock and random source. (Attempts are
    -- counted by any count that they alone raise, and by one at most.)
    pub do_with_retry-final :
        (max_retries : ℕ) (n : N)
        → (count (do_with_retry max_retries n).1 ≤ count n + max_retries + 1)
          × ((res : Response)
              → (do_with_retry max_retries n).0 ≡ ok res
              → is_retryable_status res.status ≡ false)
    unfolding do_with_retry
    do_with_retry-final max_retries n = (
      omega (arith, retry_from-count (suc max_retries) 0 cancelled n),
      λ res h. retry_from-final (suc max_retries) 0 cancelled n res h,
    )
