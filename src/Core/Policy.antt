-- ===== src/Core/Policy.antt =====
-- crates/ows-runtime-core/src/policy.rs: what network access a policy permits.
use ows_runtime_rust.Prelude.{
  ℕ, String, Bool, false, Option, List, [], ◌∷◌, ◌||◌, str_eq, ◌<>◌, none, true, if◌then◌else◌, ◌≡◌,
  not, arith, Bool-cases, eq_iff, inl, inr, ◌↔◌, ◌⊎◌,
}
use ows_runtime_rust.Core.Text.{ends_with, append-ends_with, ends_with-append}

pub record RuntimePolicy : Type 0 where
  pub max_execution_time : Option ℕ
  pub max_task_time : Option ℕ
  pub max_parallel_tasks : ℕ
  pub max_loop_iterations : ℕ
  pub max_payload_size : Option ℕ
  pub max_attempts : ℕ  -- of `retry_bounds`
  pub allow_scripts : Bool
  pub allow_containers : Bool
  pub allow_network : Bool
  pub allowed_hosts : List String
  pub allowed_schemes : List String

abbrev pub default_policy : RuntimePolicy
default_policy = record {
  max_execution_time = none;
  max_task_time = none;
  max_parallel_tasks = 1024;
  max_loop_iterations = 1000000;
  max_payload_size = none;
  max_attempts = 10;
  allow_scripts = false;
  allow_containers = false;
  allow_network = false;
  allowed_hosts = [];
  allowed_schemes = [];
}

-- `host == allowed || host.ends_with(".{allowed}")` for some entry
unfoldable pub any_host : String → List String → Bool
any_host host [] = false
any_host host (allowed ∷ rest) =
    (str_eq host allowed || ends_with host ("." <> allowed)) || any_host host rest

unfoldable pub any_scheme : String → List String → Bool
any_scheme scheme [] = false
any_scheme scheme (s ∷ rest) = str_eq s scheme || any_scheme scheme rest

abbrev pub is_empty : List String → Bool
is_empty [] = true
is_empty (_ ∷ _) = false

unfoldable pub host_allowed : RuntimePolicy → String → Bool
unfolding any_host
host_allowed policy host =
    if not policy.allow_network
    then false
    else is_empty policy.allowed_hosts || any_host host policy.allowed_hosts

unfoldable pub scheme_allowed : RuntimePolicy → String → Bool
unfolding any_scheme
scheme_allowed policy scheme =
    if not policy.allow_network
    then false
    else is_empty policy.allowed_schemes || any_scheme scheme policy.allowed_schemes

-- the host is an entry, or a name below one: some text, a dot and the entry
pub data Listed (host : String) : List String → Type 0 where
  exactly : {allowed : String} {rest : List String} → host ≡ allowed → Listed host (allowed ∷ rest)
  below :
      {allowed : String} {rest : List String}
      → (prefix : String) → host ≡ prefix <> ("." <> allowed)
      → Listed host (allowed ∷ rest)
  later : {allowed : String} {rest : List String} → Listed host rest → Listed host (allowed ∷ rest)

any_host-Listed :
    (host : String) (hosts : List String) → any_host host hosts ≡ true → Listed host hosts
unfolding any_host
any_host-Listed host [] h = absurd (ground (arith, h))
any_host-Listed host (a ∷ rest) h = elim (Bool-cases (str_eq host a)) [
  | inl e ↦ exactly ((eq_iff host a).0 e)
  | inr e ↦ elim (Bool-cases (ends_with host ("." <> a))) [
    | inl b ↦ let (p, q) = ends_with-append host ("." <> a) b in below p q
    | inr b ↦ later (any_host-Listed host rest (ground arith))
  ]
]

Listed-any_host :
    (host : String) (hosts : List String) → Listed host hosts → any_host host hosts ≡ true
unfolding any_host
Listed-any_host host hosts (exactly {allowed} e) = ground (arith, (eq_iff host allowed).1 e)
Listed-any_host host hosts (below {allowed} p e) =
    rw e (ground (arith, append-ends_with p ("." <> allowed)))
Listed-any_host host hosts (later l) = ground (arith, Listed-any_host host _ l)

-- with the empty list, which permits every host
host_allowed_iff :
    (policy : RuntimePolicy) (host : String)
    → host_allowed policy host ≡ true ↔ (
        (policy.allow_network ≡ true)
        × ((is_empty policy.allowed_hosts ≡ true) ⊎ Listed host policy.allowed_hosts))
unfolding host_allowed
host_allowed_iff policy host = elim (Bool-cases policy.allow_network) [
  | inl on ↦ elim (Bool-cases (is_empty policy.allowed_hosts)) [
    | inl none_listed ↦ ((λ h. (on, inl none_listed)), λ h. ground arith)
    | inr some_listed ↦ (
      (λ h. (on, inr (any_host-Listed host policy.allowed_hosts (ground arith)))),
      λ h. permitted on some_listed h.1,
    )
  ]
  | inr off ↦ ((λ h. absurd (ground (arith, h))), λ h. absurd (ground (arith, h.0)))
]
  where
    permitted :
        policy.allow_network ≡ true
        → is_empty policy.allowed_hosts ≡ false
        → (is_empty policy.allowed_hosts ≡ true) ⊎ Listed host policy.allowed_hosts
        → host_allowed policy host ≡ true
    permitted on some_listed (inl e) = ground arith
    permitted on some_listed (inr l) = ground (arith, Listed-any_host host policy.allowed_hosts l)

-- Where at least one host is listed, a host is permitted exactly when network access is on and the
-- host is a listed name or a name below one.
pub host_allowed-Listed :
    (policy : RuntimePolicy) (host : String)
    → is_empty policy.allowed_hosts ≡ false
    → host_allowed policy host ≡ true
      ↔ ((policy.allow_network ≡ true) × Listed host policy.allowed_hosts)
host_allowed-Listed policy host some_listed = (
  λ h. listed ((host_allowed_iff policy host).0 h),
  λ (on, l). (host_allowed_iff policy host).1 (on, inr l),
)
  where
    listed :
        (policy.allow_network ≡ true)
          × ((is_empty policy.allowed_hosts ≡ true) ⊎ Listed host policy.allowed_hosts)
        → (policy.allow_network ≡ true) × Listed host policy.allowed_hosts
    listed (on, inl e) = absurd (ground (arith, e, some_listed))
    listed (on, inr l) = (on, l)
