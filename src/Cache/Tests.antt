-- ===== src/Cache/Tests.antt =====
-- The caches (src/cache) over a small Redis that does what their laws ask for.
use linux_server.Base.{
  arith, Bool, int_eq, ℕ, suc, ◌-◌, true, false, ◌≡◌, refl, ap, List, [], ◌∷◌, Option, none, some,
  Bytes, codes, pos, Map, lookup, insert, erase, lookup-insert, lookup-erase, ◌==◌, list_eq, nat_eq,
  beq_refl, if◌then◌else◌,
}
use linux_server.Stream.Redis.{
  RedisClient, RedisCommandResult, RedisError, reply, array_reply, string_reply, integer_reply,
  status_reply, nil_reply, no_reply, also,
}
use linux_server.Service.Fixtures.{config}
use linux_server.Cache.Store.{Gets, IsStore}
use linux_server.Cache.Dedup.{IsDedupCache, dedup_cache, dedup_cache-IsDedupCache}
use linux_server.Cache.RateLimiter.{
  IsCounter, allow, allowed_in_row, smaller, allowed_in_row-allow, run_rate_limit_script,
  rate_limit_key,
}

abbrev failure : RedisCommandResult
failure = record {
  success = false;
  error = RedisError.not_found;
  message = [];
  answer = reply nil_reply [] (pos 0) no_reply;
}

abbrev text_result : Option Bytes → RedisCommandResult
text_result none = failure
text_result (some value) = record {
  success = true;
  error = RedisError.no_error;
  message = [];
  answer = reply string_reply value (pos 0) no_reply;
}

abbrev done : RedisCommandResult
done = record {
  success = true;
  error = RedisError.no_error;
  message = [];
  answer = reply status_reply (codes "OK") (pos 0) no_reply;
}

abbrev run_command : List Bytes → Map Bytes Bytes → RedisCommandResult × Map Bytes Bytes
run_command (name ∷ k ∷ []) w =
    if name == codes "GET" then (text_result (lookup k w), w) else (done, erase k w)
run_command (name ∷ k ∷ ttl ∷ value ∷ []) w = (done, insert k value w)
run_command _ w = (failure, w)

abbrev texts : RedisClient (Map Bytes Bytes)
texts = record { command = run_command }

text_result-Gets : (o : Option Bytes) → Gets o (text_result o)
text_result-Gets none = refl
text_result-Gets (some value) = (refl, refl, refl)

texts-IsStore : IsStore texts
texts-IsStore = record {
  read = λ w k. lookup k w;
  get_reply = λ w k. text_result-Gets (lookup k w);
  get_keeps = λ w k j. refl;
  set_writes = λ w k seconds value j some_time. lookup-insert k j value w;
  del_removes = λ w k j. lookup-erase k j w;
}

dedup_cache-IsDedupCache_example : IsDedupCache (dedup_cache (some texts) config)
dedup_cache-IsDedupCache_example = dedup_cache-IsDedupCache texts config texts-IsStore (omega arith)

-- Counters, which never expire.
abbrev number : ℕ → RedisCommandResult
number n = record {
  success = true;
  error = RedisError.no_error;
  message = [];
  answer = reply integer_reply [] (pos n) no_reply;
}

abbrev counted : Bytes → (Bytes → ℕ) → Bytes → ℕ
counted key w j = if key == j then suc (w key) else w j

abbrev count_call : List Bytes → (Bytes → ℕ) → RedisCommandResult × (Bytes → ℕ)
count_call (name ∷ key ∷ []) w =
    if name == codes "INCR" then (number (suc (w key)), counted key w) else (number 30, w)
count_call (expire ∷ key ∷ window ∷ []) w = (number 1, w)
count_call (eval ∷ script ∷ one ∷ key ∷ window ∷ []) w = (
  record {
    success = true;
    error = RedisError.no_error;
    message = [];
    answer = reply array_reply [] (pos 0) (
        also (reply integer_reply [] (pos (suc (w key))) no_reply)
          (also (reply integer_reply [] (pos 30) no_reply) no_reply));
  },
  counted key w,
)
count_call _ w = (failure, w)

abbrev counters : RedisClient (Bytes → ℕ)
counters = record { command = count_call }

same_branches : {A : Type 0} (b : Bool) (x : A) → x ≡ (if b then x else x)
same_branches true x = refl
same_branches false x = refl

counter_laws : IsCounter counters
unfolding run_rate_limit_script
counter_laws = record {
  count = λ w key. w key;
  incr_reply = λ w key. refl;
  incr_counts = λ w key. ap (λ b. if b then suc (w key) else w key) (beq_refl key);
  expire_keeps = λ w key window some_window. refl;
  ttl_keeps = λ w key. refl;
  eval_replies = λ w key window. (refl, refl);
  eval_runs = λ w key window. same_branches (pos (suc (w key)) == pos 1) (counted key w);
}

allowed_in_row-allow_example :
    allowed_in_row
      (λ now. allow (some counters) config now (codes "login") (codes "10.0.0.1") 5 60)
      (1700000040 ∷ 1700000041 ∷ 1700000059 ∷ 1700000099 ∷ [])
      (λ key. 2)
    ≡ smaller 4 (
        5
        - counter_laws.count
            (λ key. 2)
            (rate_limit_key config (codes "login") (codes "10.0.0.1") 28333334))
allowed_in_row-allow_example =
    allowed_in_row-allow counters config counter_laws (codes "login") (codes "10.0.0.1") 5 60
      28333334 refl refl refl refl (1700000040 ∷ 1700000041 ∷ 1700000059 ∷ 1700000099 ∷ [])
      (λ key. 2) (refl, (refl, (refl, (refl, tt))))
