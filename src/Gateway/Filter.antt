-- ===== src/Gateway/Filter.antt =====
-- What `apply_safe_search_filter` and `finalize_results` of src/gateway/mod.rs let through.
use serica.Ssrf.Fetch.{unwrap_or}
use mathlib.Core.Path.{subst}
use serica.Prelude.{
  map, to_ascii_lowercase, text_eq, text_eq_iff, Option, none, some, Option-cases, sym, ◌∙◌, ℕ,
  zero, suc, min, ◌≡◌, refl, ap, ◌≢◌, ◌↔◌, ◌⊎◌, inl, inr, Bool, true, false, not, ◌||◌, List, [],
  ◌∷◌, ◌++◌, arith, Bool-cases, length, take, drop, any, retain, length-take, All, Text, text,
  starts_with,
}
use serica.Ssrf.Url.{UrlLib}
use serica.Fetch.{Unicode}
use serica.Gateway.{
  Hasher, SearchRequest, SearchResult, cache_key, extract_cache_key, split, is_blocked, host_of,
  is_separator, is_clean, apply_safe_search_filter, finalize_results,
  safe_search_blocklist_moderate, safe_search_blocklist_strict,
}
use serica.Gateway.Words.{First, Inner, First-map, Inner-map, any-split}

any-append :
    {A : Type 0} (p : A → Bool) (xs ys : List A) → any p (xs ++ ys) ≡ (any p xs || any p ys)
any-append p [] ys = refl
any-append p (x ∷ xs) ys = ground (arith, any-append p xs ys)

-- The list of each level; nothing is blocked at level 0.
abbrev pub blocklist_at : ℕ → List Text
blocklist_at zero = []
blocklist_at (suc zero) = safe_search_blocklist_moderate
blocklist_at (suc (suc _)) = safe_search_blocklist_strict

-- The word is on the list, whatever the case of its ASCII letters.
abbrev pub IsListed : List Text → Text → Type 0
IsListed [] word = ⊥
IsListed (listed ∷ blocklist) word =
    (map to_ascii_lowercase word ≡ listed) ⊎ IsListed blocklist word

is_blocked_iff :
    (blocklist : List Text) (word : Text)
    → (is_blocked blocklist word ≡ true) ↔ IsListed blocklist word
unfolding is_blocked
is_blocked_iff [] word = (λ h. absurd (cc h), λ h. absurd h)
is_blocked_iff (listed ∷ blocklist) word =
    elim (Bool-cases (text_eq (map to_ascii_lowercase word) listed)) [
      | inl same ↦ rw same (λ h. inl ((text_eq_iff _ _).0 same), λ h. refl)
      | inr other ↦ rw other (
        λ h. inr ((is_blocked_iff blocklist word).0 h),
        λ h. elim h [
          | inl e ↦ let same = (text_eq_iff _ _).1 e in absurd (cc (same, other))
          | inr later ↦ (is_blocked_iff blocklist word).1 later
        ],
      )
    ]

none_of_three :
    (a b c : Bool) {P Q R : Type 0}
    → (a ≡ true) ↔ P
    → (b ≡ true) ↔ Q
    → (c ≡ true) ↔ R
    → (not (a || (b || c)) ≡ true) ↔ ¬ (P ⊎ Q ⊎ R)
none_of_three true b c p q r = (λ h. absurd (cc h), λ n. absurd (n (inl (p.0 refl))))
none_of_three false true c p q r = (λ h. absurd (cc h), λ n. absurd (n (inr (inl (q.0 refl)))))
none_of_three false false true p q r = (λ h. absurd (cc h), λ n. absurd (n (inr (inr (r.0 refl)))))
none_of_three false false false p q r = (
  λ h found. elim found [
    | inl x ↦ cc (p.1 x)
    | inr (inl y) ↦ cc (q.1 y)
    | inr (inr z) ↦ cc (r.1 z)
  ],
  λ n. refl,
)

module _ (U : UrlLib) (unicode : Unicode) where
  -- A word of the text, of alphanumeric characters and delimited by others, is on the list.
  abbrev pub HasBlocked : List Text → Text → Type 0
  HasBlocked blocklist s =
      First (λ c. not (unicode.is_alphanumeric c)) (IsListed blocklist) s
      ⊎ Inner (λ c. not (unicode.is_alphanumeric c)) (IsListed blocklist) s

  -- The host of a URL that can be parsed and has one, and no text otherwise.
  abbrev pub HostIs : Option U.Url → Text → Type 0
  HostIs none host = host ≡ []
  HostIs (some url) host = host ≡ unwrap_or (U.host_str url) []

  abbrev pub IsClean : List Text → SearchResult → Type 0
  IsClean blocklist r = ¬ (
      HasBlocked blocklist r.title
      ⊎ HasBlocked blocklist r.snippet
      ⊎ ((host : Text) × HostIs (U.parse r.url) host × HasBlocked blocklist host))

  words_iff :
      (blocklist : List Text) (s : Text)
      → (any (is_blocked blocklist) (split (is_separator U unicode) s) ≡ true)
        ↔ HasBlocked blocklist s
  words_iff blocklist s = (
    λ h. elim ((any-split (is_separator U unicode) (is_blocked blocklist) s).0 h) [
      | inl first ↦
          inl (First-map (is_separator U unicode) (λ w. (is_blocked_iff blocklist w).0) first)
      | inr inner ↦
          inr (Inner-map (is_separator U unicode) (λ w. (is_blocked_iff blocklist w).0) inner)
    ],
    λ h. (any-split (is_separator U unicode) (is_blocked blocklist) s).1 (elim h [
      | inl first ↦
          inl (First-map (is_separator U unicode) (λ w. (is_blocked_iff blocklist w).1) first)
      | inr inner ↦
          inr (Inner-map (is_separator U unicode) (λ w. (is_blocked_iff blocklist w).1) inner)
    ]),
  )

  host_of-HostIs : (url : Text) → HostIs (U.parse url) (host_of U unicode url)
  unfolding host_of
  host_of-HostIs url = elim (Option-cases (U.parse url)) [
    | inl e ↦ rw e refl
    | inr (u, e) ↦ rw e refl
  ]

  HostIs-unique : (o : Option U.Url) {v w : Text} → HostIs o v → HostIs o w → v ≡ w
  HostIs-unique none p q = p ∙ sym q
  HostIs-unique (some url) p q = p ∙ sym q

  host_iff :
      (blocklist : List Text) (url : Text)
      → (any (is_blocked blocklist) (split (is_separator U unicode) (host_of U unicode url)) ≡ true)
        ↔ ((host : Text) × HostIs (U.parse url) host × HasBlocked blocklist host)
  host_iff blocklist url = (
    λ h. (
      host_of U unicode url,
      host_of-HostIs url,
      (words_iff blocklist (host_of U unicode url)).0 h,
    ),
    λ found. (words_iff blocklist (host_of U unicode url)).1 (
        subst (HasBlocked blocklist) (HostIs-unique (U.parse url) found.1 (host_of-HostIs url))
          found.2),
  )

  -- A result is kept exactly when no word of its title, its snippet and its URL's host is, in lower
  -- case, on the list. A word is a longest run of alphanumeric characters.
  pub is_clean_iff :
      (blocklist : List Text) (r : SearchResult)
      → (is_clean U unicode blocklist r ≡ true) ↔ IsClean blocklist r
  unfolding is_clean
  is_clean_iff blocklist r =
      let title = split (is_separator U unicode) r.title in
      let snippet = split (is_separator U unicode) r.snippet in
      let host = split (is_separator U unicode) (host_of U unicode r.url) in
      let blocked = is_blocked blocklist in
      rw (any-append blocked title (snippet ++ host), any-append blocked snippet host)
        (none_of_three (any blocked title) (any blocked snippet) (any blocked host)
          (words_iff blocklist r.title) (words_iff blocklist r.snippet) (host_iff blocklist r.url))

  any_never : {A : Type 0} (xs : List A) → any (λ x. false) xs ≡ false
  any_never [] = refl
  any_never (x ∷ xs) = any_never xs

  filter_lem :
      (results : List SearchResult) (level : ℕ)
      → apply_safe_search_filter U unicode results level
        ≡ retain (is_clean U unicode (blocklist_at level)) results
  unfolding apply_safe_search_filter is_clean is_blocked
  filter_lem [] zero = refl
  filter_lem (r ∷ results) zero = rw any_never (ap (◌∷◌ r) (filter_lem results zero))
  filter_lem results (suc zero) = refl
  filter_lem results (suc (suc _)) = refl

  IsClean-All :
      (blocklist : List Text) (results : List SearchResult)
      → All (IsClean blocklist) (retain (is_clean U unicode blocklist) results)
  IsClean-All blocklist [] = tt
  IsClean-All blocklist (r ∷ results) = elim (Bool-cases (is_clean U unicode blocklist r)) [
    | inl kept ↦ rw kept ((is_clean_iff blocklist r).0 kept, IsClean-All blocklist results)
    | inr dropped ↦ rw dropped (IsClean-All blocklist results)
  ]

  All-take :
      (P : SearchResult → Type 0) (n : ℕ) (xs : List SearchResult) → All P xs → All P (take n xs)
  All-take P zero xs h = tt
  All-take P (suc n) [] h = tt
  All-take P (suc n) (x ∷ xs) h = (h.0, All-take P n xs h.1)

  -- In the final response no result has a word on the list of the request's level, the page holds at
  -- most `max_per_page` results and as many as there are, and `total_results` counts those that
  -- passed the filter, before the cap.
  pub finalize-IsClean :
      (results : List SearchResult) (req : SearchRequest) (max_per_page timing_ms : ℕ)
      → All
          (IsClean (blocklist_at req.safe_search))
          (finalize_results U unicode results req max_per_page timing_ms).results
        × (length (finalize_results U unicode results req max_per_page timing_ms).results
            ≡ min max_per_page
                (finalize_results U unicode results req max_per_page timing_ms).total_results)
        × ((finalize_results U unicode results req max_per_page timing_ms).total_results
            ≡ length (retain (is_clean U unicode (blocklist_at req.safe_search)) results))
  unfolding finalize_results
  finalize-IsClean results req max_per_page timing_ms = rw (filter_lem results req.safe_search) (
    All-take (IsClean (blocklist_at req.safe_search)) max_per_page _
        (IsClean-All (blocklist_at req.safe_search) results),
    length-take max_per_page _,
    refl,
  )

-- A search and an extraction never share a cache entry, whatever the hash is.
pub keys_disjoint :
    (U : UrlLib) (finish : Hasher) (req : SearchRequest) (url : U.Url)
    → cache_key finish req ≢ extract_cache_key U finish url
unfolding cache_key extract_cache_key starts_with
keys_disjoint U finish req url e =
    let at_ten : true ≡ false = ap (λ s. starts_with (text "s") (drop 10 s)) e in cc at_ten
