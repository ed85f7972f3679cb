-- ===== src/Redis.antt =====
-- Redis, as the limiters and the dedup guards use it: a parameter of what calls it. Each command
-- may raise, and then nothing is known to have changed but what came before. A key is the value
-- that its text is formatted from. The views are those of one moment, with no key expiring between
-- the commands of one call; the laws are the documented behaviour of INCR, EXPIRE, TTL and SET NX
-- EX.
use thesdel.Base.{
  some-injective, ℕ, suc, ◌≡◌, refl, Bool, true, false, Option, none, some, String, if◌then◌else◌,
  arith, str_eq, eq_iff, ◌&&◌, ◌==◌, ◌||◌, ap, sym, ◌∙◌,
}

pub data Key : Type 0 where
  -- f"aicap:{user_id}:{feature}:{period}"
  aicap : ℕ → String → ℕ → Key
  -- the key of a rate limiter
  limiter : String → Key
  -- f"ratelimit:auth:{bucket}:{client_ip}"
  auth_limiter : String → String → Key
  -- f"ratelimit:announcements:post:{user_id}"
  post_limiter : ℕ → Key
  -- f"notif:dedup:{type}:{source_id}"
  notif_dedup : String → ℕ → Key
  -- f"reminder:{window}:{user_id}:{block_id}"
  reminder : String → ℕ → ℕ → Key

pub record Redis : Type 1 where
  pub Db : Type 0
  -- the value of a counter, 0 if the key is absent
  pub count : Key → Db → ℕ
  -- the seconds until the key expires, if it does
  pub expiry : Key → Db → Option ℕ
  -- whether the key is there
  pub present : Key → Db → Bool
  pub incr : Key → Db → Option (ℕ × Db)
  pub expire : Key → ℕ → Db → Option Db
  pub ttl : Key → Db → Option ℕ
  pub set_nx : Key → ℕ → Db → Option (Bool × Db)
  pub incr-count :
      (k : Key) (s : Db) {n : ℕ} {s' : Db}
      → incr k s ≡ some (n, s')
      → (n ≡ suc (count k s)) × (count k s' ≡ n)
  pub incr-expiry :
      (k : Key) (s : Db) {n : ℕ} {s' : Db} → incr k s ≡ some (n, s') → expiry k s' ≡ expiry k s
  pub expire-count :
      (k j : Key) (t : ℕ) (s : Db) {s' : Db} → expire k t s ≡ some s' → count j s' ≡ count j s
  pub expire-expiry :
      (k : Key) (t : ℕ) (s : Db) {s' : Db} → expire k t s ≡ some s' → expiry k s' ≡ some t
  pub set_nx-present :
      (k : Key) (t : ℕ) (s : Db) {b : Bool} {s' : Db}
      → set_nx k t s ≡ some (b, s')
      → present k s' ≡ true
  pub set_nx-acquired :
      (k : Key) (t : ℕ) (s : Db) {b : Bool} {s' : Db}
      → set_nx k t s ≡ some (b, s')
      → b ≡ (if present k s then false else true)

-- A server that is up and keeps its keys as functions meets the laws.
abbrev pub key_eq : Key → Key → Bool
key_eq (Key.aicap u f p) (Key.aicap v g q) = (u == v) && (str_eq f g && (p == q))
key_eq (Key.limiter k) (Key.limiter l) = str_eq k l
key_eq (Key.auth_limiter b i) (Key.auth_limiter c j) = str_eq b c && str_eq i j
key_eq (Key.post_limiter u) (Key.post_limiter v) = u == v
key_eq (Key.notif_dedup k i) (Key.notif_dedup l j) = str_eq k l && (i == j)
key_eq (Key.reminder w u b) (Key.reminder v t c) = str_eq w v && ((u == t) && (b == c))
key_eq k l = false

str_eq_refl : (t : String) → str_eq t t ≡ true
str_eq_refl t = (eq_iff t t).1 refl

key_eq_refl : (k : Key) → key_eq k k ≡ true
key_eq_refl (Key.aicap u f p) = ground (arith, str_eq_refl f)
key_eq_refl (Key.limiter k) = str_eq_refl k
key_eq_refl (Key.auth_limiter b i) = ground (arith, str_eq_refl b, str_eq_refl i)
key_eq_refl (Key.post_limiter u) = ground arith
key_eq_refl (Key.notif_dedup k i) = ground (arith, str_eq_refl k)
key_eq_refl (Key.reminder w u b) = ground (arith, str_eq_refl w)

pub record Keys : Type 0 where
  pub counts : Key → ℕ
  pub expiries : Key → Option ℕ
  pub taken : Key → Bool

abbrev pub no_keys : Keys
no_keys = record { counts = λ k. 0; expiries = λ k. none; taken = λ k. false }

abbrev pub incr_key : Key → Keys → Keys
incr_key k s = record s { counts = λ j. if key_eq k j then suc (s.counts k) else s.counts j }

abbrev pub expire_key : Key → ℕ → Keys → Keys
expire_key k t s = record s { expiries = λ j. if key_eq k j then some t else s.expiries j }

abbrev pub take_key : Key → Keys → Keys
take_key k s = record s { taken = λ j. key_eq k j || s.taken j }

abbrev pub incr_live : Key → Keys → Option (ℕ × Keys)
incr_live k s = some (suc (s.counts k), incr_key k s)

abbrev pub set_nx_live : Key → Keys → Option (Bool × Keys)
set_nx_live k s = some (if s.taken k then false else true, take_key k s)

pub live_incr-count :
    (k : Key) (s : Keys) {n : ℕ} {s' : Keys}
    → incr_live k s ≡ some (n, s')
    → (n ≡ suc (s.counts k)) × (s'.counts k ≡ n)
live_incr-count k s {n} {s'} h =
    let e = some-injective h in
    let same : s'.counts k ≡ (incr_key k s).counts k =
      ap (λ (o : ℕ × Keys). (o.1).counts k) (sym e) in
    let number : n ≡ suc (s.counts k) = ap (λ (o : ℕ × Keys). o.0) (sym e) in
    ground (arith, key_eq_refl k, same, number)

pub live_incr-expiry :
    (k : Key) (s : Keys) {n : ℕ} {s' : Keys}
    → incr_live k s ≡ some (n, s')
    → s'.expiries k ≡ s.expiries k
live_incr-expiry k s h = ap (λ (o : ℕ × Keys). (o.1).expiries k) (sym (some-injective h))

pub live_expire-count :
    (k j : Key) (t : ℕ) (s : Keys) {s' : Keys}
    → some (expire_key k t s) ≡ some s'
    → s'.counts j ≡ s.counts j
live_expire-count k j t s h = ap (λ (o : Keys). o.counts j) (sym (some-injective h))

pub live_expire-expiry :
    (k : Key) (t : ℕ) (s : Keys) {s' : Keys}
    → some (expire_key k t s) ≡ some s'
    → s'.expiries k ≡ some t
live_expire-expiry k t s {s'} h =
    let same : s'.expiries k ≡ (expire_key k t s).expiries k =
      ap (λ (o : Keys). o.expiries k) (sym (some-injective h)) in
    same ∙ rw (key_eq_refl k) refl

pub live_set_nx-present :
    (k : Key) (t : ℕ) (s : Keys) {b : Bool} {s' : Keys}
    → set_nx_live k s ≡ some (b, s')
    → s'.taken k ≡ true
live_set_nx-present k t s {b} {s'} h =
    let same : s'.taken k ≡ (take_key k s).taken k =
      ap (λ (o : Bool × Keys). (o.1).taken k) (sym (some-injective h)) in
    same ∙ rw (key_eq_refl k) refl

pub live_set_nx-acquired :
    (k : Key) (t : ℕ) (s : Keys) {b : Bool} {s' : Keys}
    → set_nx_live k s ≡ some (b, s')
    → b ≡ (if s.taken k then false else true)
live_set_nx-acquired k t s h = ap (λ (o : Bool × Keys). o.0) (sym (some-injective h))

abbrev pub live_redis : Redis
live_redis = record {
  Db = Keys;
  count = λ k s. s.counts k;
  expiry = λ k s. s.expiries k;
  present = λ k s. s.taken k;
  incr = λ k s. incr_live k s;
  expire = λ k t s. some (expire_key k t s);
  ttl = λ k s. s.expiries k;
  set_nx = λ k t s. set_nx_live k s;
  incr-count = λ k s h. live_incr-count k s h;
  incr-expiry = λ k s h. live_incr-expiry k s h;
  expire-count = λ k j t s h. live_expire-count k j t s h;
  expire-expiry = λ k t s h. live_expire-expiry k t s h;
  set_nx-present = λ k t s h. live_set_nx-present k t s h;
  set_nx-acquired = λ k t s h. live_set_nx-acquired k t s h;
}
