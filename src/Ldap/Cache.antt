-- ===== src/Ldap/Cache.antt =====
-- A credential that was cached is found until its time to live is over.
use d_plane_os.Prelude.{
  ℕ, ◌-◌, ◌*◌, ◌≡◌, ◌≢◌, refl, sym, ltb, Str, str_eq, str_eq_iff, str_eq_self, false, Option, some,
  none, List, [], ◌∷◌, arith, Bool-cases, inl, inr, if◌then◌else◌,
}
use d_plane_os.Ldap.{
  second, CachedCredential, put_credential, find_credential, cache_credential, if_valid,
  get_cached_credential,
}

find-put_credential :
    (c : CachedCredential) (cs : List CachedCredential)
    → find_credential c.username (put_credential c cs) ≡ some c
unfolding find_credential put_credential
find-put_credential c [] = rw (str_eq_self c.username, if◌then◌else◌) refl
find-put_credential c (d ∷ ds) = elim (Bool-cases (str_eq d.username c.username)) [
  | inl e ↦ rw (e, if◌then◌else◌, str_eq_self c.username, if◌then◌else◌) refl
  | inr e ↦ rw (e, if◌then◌else◌, e, if◌then◌else◌) (find-put_credential c ds)
]

str_eq_apart : (a b : Str) → a ≢ b → str_eq a b ≡ false
str_eq_apart a b h = ground (arith, str_eq_iff a b)

find-put_credential_other :
    (u : Str) (c : CachedCredential) (cs : List CachedCredential)
    → c.username ≢ u
    → find_credential u (put_credential c cs) ≡ find_credential u cs
unfolding find_credential put_credential
find-put_credential_other u c [] h = rw (str_eq_apart c.username u h, if◌then◌else◌) refl
find-put_credential_other u c (d ∷ ds) h = elim (Bool-cases (str_eq d.username c.username)) [
  | inl e ↦
      let same : d.username ≡ c.username = (str_eq_iff d.username c.username).0 e in
      let apart = str_eq_apart c.username u h in
      rw (e, if◌then◌else◌, apart, if◌then◌else◌, same, apart, if◌then◌else◌) refl
  | inr e ↦ rw (e, if◌then◌else◌) (ground (arith, find-put_credential_other u c ds h))
]

-- The credential that caching makes, as a lookup gives it back: nothing after 24 hours.
abbrev pub fresh : ℕ → ℕ → Str → Str → List Str → Option CachedCredential
fresh now later u hash roles =
    if ltb (24 * 3600 * second) (later - now)
    then none
    else some (record {
      username = u;
      password_hash = hash;
      roles = roles;
      cached_at = now;
      ttl = 24 * 3600 * second;
    })

-- After a credential was cached, the lookup of its user gives it back as it was cached while it is at
-- most 24 hours old, and nothing afterwards; the lookup of any other user gives what it gave before.
pub cache_credential-get :
    (now later : ℕ) (u hash v : Str) (roles : List Str) (cache : List CachedCredential)
    → get_cached_credential later v (cache_credential now u hash roles cache)
      ≡ (if str_eq u v then fresh now later u hash roles else get_cached_credential later v cache)
unfolding cache_credential get_cached_credential if_valid
cache_credential-get now later u hash v roles cache =
    let c : CachedCredential = record {
      username = u;
      password_hash = hash;
      roles = roles;
      cached_at = now;
      ttl = 24 * 3600 * second;
    } in
    elim (Bool-cases (str_eq u v)) [
      | inl e ↦
          let same : u ≡ v = (str_eq_iff u v).0 e in
          rw (e, if◌then◌else◌, sym same, find-put_credential c cache) refl
      | inr e ↦
          let apart : u ≢ v = λ h. ground (arith, e, h, str_eq_iff u v) in
          rw (e, if◌then◌else◌, find-put_credential_other v c cache apart) refl
    ]
