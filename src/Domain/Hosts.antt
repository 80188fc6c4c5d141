-- ===== src/Domain/Hosts.antt =====
-- Which links are trusted, against the list of the hosts of each provider.
use mathlib.Core.Path.{subst}
use mathlib.Core.Option.{some-injective}
use egeism.Base.{
  ◌≡◌, refl, sym, ap, ◌∙◌, ◌↔◌, inl, inr, Bool, true, false, none, some, List, [], ◌∷◌,
  if◌then◌else◌, any, Option-cases, arith,
}
use egeism.Base.Text.{Text, codes, text_eq, text_eq_iff}
use egeism.Domain.Source.{
  Url, ParseUrl, plain_host, is_fipi_host, trusted_fipi, is_subject_host, trusted_host,
  trusted_source_url,
}

abbrev pub fipi_hosts : List Text
fipi_hosts = codes "fipi.ru" ∷ codes "doc.fipi.ru" ∷ codes "ege.fipi.ru" ∷ []

abbrev pub openfipi_hosts : List Text
openfipi_hosts = codes "openfipi.devinf.ru" ∷ fipi_hosts

abbrev pub sdamgia_hosts : List Text
sdamgia_hosts =
    codes "math-ege.sdamgia.ru"
    ∷ codes "math.ege.sdamgia.ru"
    ∷ codes "rus-ege.sdamgia.ru"
    ∷ codes "rus.ege.sdamgia.ru"
    ∷ codes "inf-ege.sdamgia.ru"
    ∷ codes "inf.ege.sdamgia.ru"
    ∷ codes "soc-ege.sdamgia.ru"
    ∷ codes "soc.ege.sdamgia.ru"
    ∷ codes "ege.sdamgia.ru"
    ∷ fipi_hosts

-- The hosts whose links the provider's tasks may cite.
abbrev pub hosts : Text → List Text
hosts provider =
    if text_eq provider (codes "fipi")
    then fipi_hosts
    else (if text_eq provider (codes "openfipi")
        then openfipi_hosts
        else (if text_eq provider (codes "sdamgia") then sdamgia_hosts else []))

abbrev pub is_host : Text → List Text → Bool
is_host h hs = any (λ k. text_eq h k) hs

trusted_fipi-host :
    (parse : ParseUrl) (raw h : Text)
    → plain_host (parse raw) ≡ some h
    → trusted_fipi parse raw ≡ is_host h fipi_hosts
unfolding trusted_fipi is_fipi_host
trusted_fipi-host parse raw h e = rw (e, trusted_fipi) (ground arith)

trusted_host-hosts :
    (parse : ParseUrl) (provider raw h : Text)
    → plain_host (parse raw) ≡ some h
    → trusted_host parse provider raw h ≡ is_host h (hosts provider)
unfolding trusted_host is_fipi_host is_subject_host
trusted_host-hosts parse provider raw h e =
    rw (trusted_fipi-host parse raw h e, trusted_host) (ground arith)

-- https, with neither user nor port, on a host of the provider's list.
abbrev pub IsTrusted : Text → Url → Type 0
IsTrusted provider u =
    (u.scheme ≡ codes "https")
    × (u.has_user ≡ false)
    × (u.port ≡ [])
    × (is_host u.hostname (hosts provider) ≡ true)

plain_host-none :
    (provider : Text) (u : Url) → plain_host (some u) ≡ none → IsTrusted provider u → ⊥
unfolding plain_host
plain_host-none provider u h t =
    ground (arith, text_eq_iff u.scheme (codes "https"), text_eq_iff u.port [])

plain_host-some :
    (u : Url) (h : Text)
    → plain_host (some u) ≡ some h
    → (u.scheme ≡ codes "https") × (u.has_user ≡ false) × (u.port ≡ []) × (u.hostname ≡ h)
unfolding plain_host
plain_host-some u h e = ground (arith, text_eq_iff u.scheme (codes "https"), text_eq_iff u.port [])

-- A link that parses as the URL u is trusted exactly when u is.
IsTrusted-IsTrusted :
    (parse : ParseUrl) (provider raw : Text) (u : Url)
    → parse raw ≡ some u
    → (trusted_source_url parse provider raw ≡ true) ↔ IsTrusted provider u
unfolding trusted_source_url
IsTrusted-IsTrusted parse provider raw u e = elim (Option-cases (plain_host (parse raw))) [
  | inl n ↦
      (λ h. ground arith, λ t. absurd (plain_host-none provider u (ap plain_host (sym e) ∙ n) t))
  | inr (h, p) ↦
      let (scheme, user, port, host) = plain_host-some u h (ap plain_host (sym e) ∙ p) in
      let listed = trusted_host-hosts parse provider raw h p in
      (
        λ t. (scheme, user, port, rw host (ground arith)),
        λ (a, b, c, t). (let l = rw host at t in ground arith),
      )
]

unparsed :
    (parse : ParseUrl) (provider raw : Text)
    → parse raw ≡ none
    → trusted_source_url parse provider raw ≡ false
unfolding trusted_source_url plain_host
unparsed parse provider raw e = rw (e, trusted_source_url) refl

-- A link is trusted exactly when it parses as an https URL with neither user nor port whose host is
-- on the provider's list.
pub trusted_source_url_iff :
    (parse : ParseUrl) (provider raw : Text)
    → (trusted_source_url parse provider raw ≡ true)
      ↔ ((u : Url) × (parse raw ≡ some u) × IsTrusted provider u)
unfolding trusted_source_url
trusted_source_url_iff parse provider raw = elim (Option-cases (parse raw)) [
  | inl e ↦
      let n = unparsed parse provider raw e in
      (λ h. absurd (cc (sym n ∙ h)), λ (u, p, q). absurd (cc (sym e ∙ p)))
  | inr (u, e) ↦
      let t = IsTrusted-IsTrusted parse provider raw u e in
      (
        λ h. (u, e, t.0 h),
        λ (v, p, q). t.1 (subst (IsTrusted provider) (some-injective v u (sym p ∙ e)) q),
      )
]
