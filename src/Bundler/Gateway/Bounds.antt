-- ===== src/Bundler/Gateway/Bounds.antt =====
-- The limits that the gateway keeps under one configuration, whatever requests arrive and however they
-- end.
use cardano_on_evm.Prelude.{
  ℕ, ◌+◌, ◌*◌, ◌-◌, ◌≤◌, ◌<◌, ◌≡◌, refl, ap, ◌∙◌, Bool, true, false, ◌||◌, Option, none, some,
  arith, leb, ltb, if◌then◌else◌,
}
use native.Mathlib.Nat.{mul-add, mul_comm}
use cardano_on_evm.Bundler.Gateway.{
  GatewayConfig, Gateway, start_gateway, Head, answer_head, refill, admit_request, begin_request,
  Ending, forwarded, upstream_rejected, gateway_rejected, end_request, min_of, admitted,
}

-- The states that a gateway comes to from its start at a time: requests begin and end, no sooner than
-- they began.
pub data Reaches (config : GatewayConfig) (start : ℕ) : Gateway → Type 0 where
  started : Reaches config start (start_gateway config start)
  begun :
      (g : Gateway) (head : Head) (now : ℕ)
      → g.last_refill ≤ now
      → Reaches config start g
      → Reaches config start (begin_request head now g).1
  ended :
      (g : Gateway) (e : Ending)
      → 1 ≤ g.active
      → Reaches config start g
      → Reaches config start (end_request e g)

-- What holds of every such state.
pub record Inv (config : GatewayConfig) (start : ℕ) (g : Gateway) : Type 0 where
  pub same_config : g.current ≡ config
  pub concurrency : g.active ≤ config.max_concurrent
  pub burst : g.available ≤ config.requests_per_minute * 60000
  pub not_before : start ≤ g.last_refill
  pub accounted :
      g.counters.requests
      ≡ g.counters.admitted + g.counters.upstream_errors + g.counters.rejected + g.active
  pub rate :
      g.counters.requests * 60000 + g.available + config.requests_per_minute * start
      ≤ config.requests_per_minute * 60000 + config.requests_per_minute * g.last_refill

start-Inv : (config : GatewayConfig) (start : ℕ) → Inv config start (start_gateway config start)
unfolding start_gateway
start-Inv config start = record {
  same_config = refl;
  concurrency = omega arith;
  burst = omega arith;
  not_before = omega arith;
  accounted = refl;
  rate = omega arith;
}

min_of-≤-left : (a b : ℕ) → min_of a b ≤ a
min_of-≤-left a b = ground arith

min_of-≤-right : (a b : ℕ) → min_of a b ≤ b
min_of-≤-right a b = ground arith

-- The tokens of a stretch of time are those of its two parts.
split_time : (rate last now : ℕ) → last ≤ now → rate * now ≡ rate * last + (now - last) * rate
split_time rate last now h =
    let whole : now ≡ last + (now - last) = omega (arith, h) in
    ap (λ (n : ℕ). rate * n) whole
    ∙ mul-add rate last (now - last)
    ∙ ap (λ (n : ℕ). rate * last + n) (mul_comm rate (now - last))

refill-Inv :
    (config : GatewayConfig) (start now : ℕ) (g : Gateway)
    → g.last_refill ≤ now
    → Inv config start g
    → Inv config start (refill g now)
unfolding refill
refill-Inv config start now g h v =
    let rate_is = ap (λ (c : GatewayConfig). c.requests_per_minute) v.same_config in
    let earned = ap (λ (r : ℕ). (now - g.last_refill) * r) rate_is in
    let cap =
      min_of-≤-left (g.current.requests_per_minute * 60000)
        (g.available + (now - g.last_refill) * g.current.requests_per_minute) in
    let most =
      min_of-≤-right (g.current.requests_per_minute * 60000)
        (g.available + (now - g.last_refill) * g.current.requests_per_minute) in
    let time = split_time config.requests_per_minute g.last_refill now h in
    record {
      same_config = v.same_config;
      concurrency = v.concurrency;
      burst = omega (arith, cap, rate_is);
      not_before = omega (arith, h, v.not_before);
      accounted = v.accounted;
      rate = omega (arith, most, time, earned, v.rate);
    }

admitted-Inv :
    (config : GatewayConfig) (start : ℕ) (g : Gateway) (full : Bool)
    → full ≡ ltb g.available 60000 || leb g.current.max_concurrent g.active
    → Inv config start g
    → Inv config start
        (if◌then◌else◌ {A = Option ℕ × Gateway} full (some 429, g) (none, admitted g)).1
admitted-Inv config start g true h v = v
admitted-Inv config start g false h v =
    let room = ap (λ (c : GatewayConfig). c.max_concurrent) v.same_config in
    let tokens : 60000 ≤ g.available = ground (arith, h) in
    let space : g.active < g.current.max_concurrent = ground (arith, h) in
    record {
      same_config = v.same_config;
      concurrency = omega (arith, space, room);
      burst = omega (arith, v.burst);
      not_before = v.not_before;
      accounted = omega (arith, v.accounted);
      rate = omega (arith, tokens, v.rate);
    }

admit_request-Inv :
    (config : GatewayConfig) (start : ℕ) (g : Gateway)
    → Inv config start g
    → Inv config start (admit_request g).1
unfolding admit_request
admit_request-Inv config start g v =
    admitted-Inv config start g (ltb g.available 60000 || leb g.current.max_concurrent g.active)
      refl v

end_request-Inv :
    (config : GatewayConfig) (start : ℕ) (e : Ending) (g : Gateway)
    → 1 ≤ g.active
    → Inv config start g
    → Inv config start (end_request e g)
unfolding end_request
end_request-Inv config start forwarded g h v = record {
  same_config = v.same_config;
  concurrency = omega (arith, v.concurrency);
  burst = v.burst;
  not_before = v.not_before;
  accounted = omega (arith, v.accounted);
  rate = v.rate;
}
end_request-Inv config start upstream_rejected g h v = record {
  same_config = v.same_config;
  concurrency = omega (arith, v.concurrency);
  burst = v.burst;
  not_before = v.not_before;
  accounted = omega (arith, v.accounted);
  rate = v.rate;
}
end_request-Inv config start gateway_rejected g h v = record {
  same_config = v.same_config;
  concurrency = omega (arith, v.concurrency);
  burst = v.burst;
  not_before = v.not_before;
  accounted = omega (arith, v.accounted);
  rate = v.rate;
}

-- What the handler gives back before it waits, on the state that the head and the time make of `g`.
begin_request-Inv :
    (config : GatewayConfig) (start now : ℕ) (g : Gateway) (head : Head)
    → g.last_refill ≤ now
    → Inv config start g
    → Inv config start (begin_request head now g).1
unfolding begin_request
begin_request-Inv config start now g head h v =
    elim (answer_head head)
      as (λ o.
        Inv config start
          (elim o as (λ x. Option ℕ × Gateway) [
            | some status ↦ (some status, g)
            | none ↦ admit_request (refill g now)
          ]).1) [
            | some status ↦ v
            | none ↦
                admit_request-Inv config start (refill g now) (refill-Inv config start now g h v)
          ]

-- Under one configuration, from the gateway's start and after any sequence of requests that begin and
-- end, as long as the clock does not go back and no request ends that had not begun: no more requests
-- are active than may be at a time, every request that began has been counted as admitted, as an error
-- of the upstream or as rejected or is active, and no more have begun than the burst of one minute and
-- the rate over the time since the start allow.
pub Reaches-Inv :
    (config : GatewayConfig) (start : ℕ) (g : Gateway) → Reaches config start g → Inv config start g
Reaches-Inv config start _ started = start-Inv config start
Reaches-Inv config start _ (begun g head now h r) =
    begin_request-Inv config start now g head h (Reaches-Inv config start g r)
Reaches-Inv config start _ (ended g e h r) =
    end_request-Inv config start e g h (Reaches-Inv config start g r)
