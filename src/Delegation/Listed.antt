-- ===== src/Delegation/Listed.antt =====
-- What `list_delegation_candidates` returns.
use agents_universe.Prelude.{
  ◌≡◌, refl, ap, ◌∙◌, inl, inr, Bool, true, false, ◌&&◌, not, Option, none, some, List, [], ◌∷◌,
  if◌then◌else◌, keep, keep-yes, keep-no, arith, Bool-cases,
}
use agents_universe.Prelude.Text.{Text}
use agents_universe.Prelude.TextSet.{same_iff, elem, distinct}
use agents_universe.Delegation.{
  DelegationCandidate, DefinitionFile, project_prefix, load_all, load_framework, load_project,
  insert_sorted, sorted, is_allowed, list_delegation_candidates,
}
use agents_universe.Delegation.Roster.{
  slugs, lookup, or_else, last_loaded, lookup-load_all, distinct-load_all, lookup-sorted,
  elem-insert_sorted, elem-sorted,
}

module _ (p : Text → Bool) where
  elem-slugs-keep :
      (cs : List DelegationCandidate) (s : Text)
      → elem s (slugs (keep (λ c. p c.slug) cs)) ≡ (elem s (slugs cs) && p s)
  unfolding elem
  elem-slugs-keep [] s = refl
  elem-slugs-keep (c ∷ cs) s = elim (Bool-cases (p c.slug)) [
    | inl y ↦
        rw (keep-yes (λ c. p c.slug) c cs y)
          (ground (arith, same_iff c.slug s, elem-slugs-keep cs s, y))
    | inr n ↦
        rw (keep-no (λ c. p c.slug) c cs n)
          (ground (arith, same_iff c.slug s, elem-slugs-keep cs s, n))
  ]

  distinct-slugs-keep :
      (cs : List DelegationCandidate)
      → distinct (slugs cs) ≡ true
      → distinct (slugs (keep (λ c. p c.slug) cs)) ≡ true
  unfolding distinct
  distinct-slugs-keep [] u = refl
  distinct-slugs-keep (c ∷ cs) u = elim (Bool-cases (p c.slug)) [
    | inl y ↦
        rw (keep-yes (λ c. p c.slug) c cs y)
          (ground (arith, elem-slugs-keep cs c.slug, distinct-slugs-keep cs))
    | inr n ↦ rw (keep-no (λ c. p c.slug) c cs n) (ground (arith, distinct-slugs-keep cs))
  ]

  lookup-keep :
      (cs : List DelegationCandidate) (s : Text)
      → lookup s (keep (λ c. p c.slug) cs) ≡ (if p s then lookup s cs else none)
  unfolding lookup
  lookup-keep [] s = ground arith
  lookup-keep (c ∷ cs) s = elim (Bool-cases (p c.slug)) [
    | inl y ↦
        rw (keep-yes (λ c. p c.slug) c cs y)
          (ground (arith, same_iff c.slug s, lookup-keep cs s, y))
    | inr n ↦
        rw (keep-no (λ c. p c.slug) c cs n) (ground (arith, same_iff c.slug s, lookup-keep cs s, n))
  ]

distinct-insert_sorted :
    (c : DelegationCandidate) (cs : List DelegationCandidate)
    → elem c.slug (slugs cs) ≡ false
    → distinct (slugs cs) ≡ true
    → distinct (slugs (insert_sorted c cs)) ≡ true
unfolding insert_sorted distinct elem
distinct-insert_sorted c [] new u = refl
distinct-insert_sorted c (d ∷ ds) new u = ground (
  arith,
  same_iff c.slug d.slug,
  same_iff d.slug c.slug,
  elem-insert_sorted c ds d.slug,
  distinct-insert_sorted c ds,
)

distinct-sorted :
    (cs : List DelegationCandidate)
    → distinct (slugs cs) ≡ true
    → distinct (slugs (sorted cs)) ≡ true
unfolding sorted distinct
distinct-sorted [] u = refl
distinct-sorted (c ∷ cs) u =
    distinct-insert_sorted c (sorted cs) (ground (arith, elem-sorted cs c.slug))
      (distinct-sorted cs (ground arith))

-- What each of the two directories offers under a slug.
unfoldable pub framework_offer : Option (List DefinitionFile) → Text → Option DelegationCandidate
framework_offer none s = none
framework_offer (some fs) s = last_loaded none fs s

unfoldable pub project_offer :
    Option (Text × List DefinitionFile) → Text → Option DelegationCandidate
project_offer none s = none
project_offer (some (name, fs)) s = last_loaded (project_prefix name) fs s

lookup-load_framework :
    (framework : Option (List DefinitionFile)) (s : Text)
    → lookup s (load_framework framework) ≡ framework_offer framework s
unfolding load_framework framework_offer lookup
lookup-load_framework none s = refl
lookup-load_framework (some fs) s = ground (arith, lookup-load_all none fs [] s)

lookup-load_project :
    (project : Option (Text × List DefinitionFile)) (found : List DelegationCandidate) (s : Text)
    → lookup s (load_project project found) ≡ or_else (project_offer project s) (lookup s found)
unfolding load_project project_offer
lookup-load_project none found s = refl
lookup-load_project (some (name, fs)) found s = lookup-load_all (project_prefix name) fs found s

distinct-load_project :
    (project : Option (Text × List DefinitionFile)) (framework : Option (List DefinitionFile))
    → distinct (slugs (load_project project (load_framework framework))) ≡ true
unfolding load_project load_framework distinct
distinct-load_project none none = refl
distinct-load_project none (some fs) = distinct-load_all none fs [] refl
distinct-load_project (some (name, fs)) none = distinct-load_all (project_prefix name) fs [] refl
distinct-load_project (some (name, fs)) (some gs) =
    distinct-load_all (project_prefix name) fs (load_all none gs [])
      (distinct-load_all none gs [] refl)

-- The roster has no slug twice, and under each slug what the project offers or else, where it offers
-- nothing, what the framework offers, unless the slug is excluded or is missing in an allowlist that
-- is not empty.
pub lookup-list_delegation_candidates :
    (project : Option (Text × List DefinitionFile)) (framework : Option (List DefinitionFile))
    (exclude allow : List Text) (s : Text)
    → let roster = list_delegation_candidates project framework exclude allow in
      (distinct (slugs roster) ≡ true)
      × (lookup s roster ≡ (
          if not (elem s exclude) && is_allowed allow s
          then or_else (project_offer project s) (framework_offer framework s)
          else none))
unfolding list_delegation_candidates
lookup-list_delegation_candidates project framework exclude allow s =
    let found = load_project project (load_framework framework) in
    let p = λ (s : Text). not (elem s exclude) && is_allowed allow s in
    let u = distinct-slugs-keep p found (distinct-load_project project framework) in
    (
      distinct-sorted (keep (λ c. p c.slug) found) u,
      lookup-sorted (keep (λ c. p c.slug) found) s u
          ∙ (lookup-keep p found s
              ∙ ap (λ o. if p s then o else none)
                  (lookup-load_project project (load_framework framework) s
                    ∙ ap (or_else (project_offer project s)) (lookup-load_framework framework s))),
    )
