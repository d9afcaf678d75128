-- ===== src/Delegation/Roster.antt =====
-- What the roster holds.
use agents_universe.Prelude.{
  ◌≡◌, refl, ap, ◌∙◌, true, false, ◌||◌, Option, none, some, List, [], ◌∷◌, map, if◌then◌else◌,
  arith,
}
use agents_universe.Prelude.Text.{Text}
use agents_universe.Prelude.TextSet.{same, same_iff, elem, distinct}
use agents_universe.Delegation.{
  DelegationCandidate, DefinitionFile, load_candidate, put, put_loaded, load_all, insert_sorted,
  sorted,
}

abbrev pub slugs : List DelegationCandidate → List Text
slugs cs = map (λ c. c.slug) cs

-- The candidate with the slug: the first in a roster.
unfoldable pub lookup : Text → List DelegationCandidate → Option DelegationCandidate
lookup s [] = none
lookup s (c ∷ cs) = if same c.slug s then some c else lookup s cs

abbrev pub or_else :
    Option DelegationCandidate → Option DelegationCandidate → Option DelegationCandidate
or_else none d = d
or_else (some c) d = some c

-- The candidate, where it has the slug.
abbrev pub named : Option DelegationCandidate → Text → Option DelegationCandidate
named none s = none
named (some c) s = if same c.slug s then some c else none

-- The candidate of the last file that has one with the slug.
unfoldable pub last_loaded : Option Text → List DefinitionFile → Text → Option DelegationCandidate
last_loaded prefix [] s = none
last_loaded prefix (f ∷ fs) s =
    or_else (last_loaded prefix fs s) (named (load_candidate prefix f) s)

lookup-put :
    (c : DelegationCandidate) (cs : List DelegationCandidate) (s : Text)
    → lookup s (put c cs) ≡ (if same c.slug s then some c else lookup s cs)
unfolding lookup put
lookup-put c [] s = refl
lookup-put c (d ∷ ds) s =
    ground (arith, same_iff d.slug c.slug, same_iff d.slug s, same_iff c.slug s, lookup-put c ds s)

elem-slugs-put :
    (c : DelegationCandidate) (cs : List DelegationCandidate) (s : Text)
    → elem s (slugs (put c cs)) ≡ (same c.slug s || elem s (slugs cs))
unfolding put elem
elem-slugs-put c [] s = ground arith
elem-slugs-put c (d ∷ ds) s =
    ground
      (arith, same_iff d.slug c.slug, same_iff d.slug s, same_iff c.slug s, elem-slugs-put c ds s)

distinct-put :
    (c : DelegationCandidate) (cs : List DelegationCandidate)
    → distinct (slugs cs) ≡ true
    → distinct (slugs (put c cs)) ≡ true
unfolding put distinct elem
distinct-put c [] u = refl
distinct-put c (d ∷ ds) u = ground (
  arith,
  same_iff d.slug c.slug,
  same_iff c.slug d.slug,
  elem-slugs-put c ds d.slug,
  distinct-put c ds,
)

distinct-put_loaded :
    (o : Option DelegationCandidate) (found : List DelegationCandidate)
    → distinct (slugs found) ≡ true
    → distinct (slugs (put_loaded o found)) ≡ true
unfolding put_loaded
distinct-put_loaded none found u = u
distinct-put_loaded (some c) found u = distinct-put c found u

pub distinct-load_all :
    (prefix : Option Text) (fs : List DefinitionFile) (found : List DelegationCandidate)
    → distinct (slugs found) ≡ true
    → distinct (slugs (load_all prefix fs found)) ≡ true
unfolding load_all
distinct-load_all prefix [] found u = u
distinct-load_all prefix (f ∷ fs) found u =
    distinct-load_all prefix fs (put_loaded (load_candidate prefix f) found)
      (distinct-put_loaded (load_candidate prefix f) found u)

lookup-put_loaded :
    (o : Option DelegationCandidate) (found : List DelegationCandidate) (s : Text)
    → lookup s (put_loaded o found) ≡ or_else (named o s) (lookup s found)
unfolding put_loaded
lookup-put_loaded none found s = refl
lookup-put_loaded (some c) found s = ground (arith, lookup-put c found s)

or_else_assoc :
    (a b c : Option DelegationCandidate) → or_else a (or_else b c) ≡ or_else (or_else a b) c
or_else_assoc none b c = refl
or_else_assoc (some a) b c = refl

pub lookup-load_all :
    (prefix : Option Text) (fs : List DefinitionFile) (found : List DelegationCandidate) (s : Text)
    → lookup s (load_all prefix fs found) ≡ or_else (last_loaded prefix fs s) (lookup s found)
unfolding load_all last_loaded
lookup-load_all prefix [] found s = refl
lookup-load_all prefix (f ∷ fs) found s =
    let o = load_candidate prefix f in
    lookup-load_all prefix fs (put_loaded o found) s
    ∙ (ap (or_else (last_loaded prefix fs s)) (lookup-put_loaded o found s)
        ∙ or_else_assoc (last_loaded prefix fs s) (named o s) (lookup s found))

-- Sorting keeps what is found under each slug.
pub elem-insert_sorted :
    (c : DelegationCandidate) (cs : List DelegationCandidate) (s : Text)
    → elem s (slugs (insert_sorted c cs)) ≡ (same c.slug s || elem s (slugs cs))
unfolding insert_sorted elem
elem-insert_sorted c [] s = ground arith
elem-insert_sorted c (d ∷ ds) s = ground (arith, elem-insert_sorted c ds s)

lookup-insert_sorted :
    (c : DelegationCandidate) (cs : List DelegationCandidate) (s : Text)
    → elem c.slug (slugs cs) ≡ false
    → lookup s (insert_sorted c cs) ≡ (if same c.slug s then some c else lookup s cs)
unfolding insert_sorted lookup elem
lookup-insert_sorted c [] s new = refl
lookup-insert_sorted c (d ∷ ds) s new = ground (
  arith,
  same_iff d.slug s,
  same_iff c.slug s,
  same_iff d.slug c.slug,
  lookup-insert_sorted c ds s,
)

pub elem-sorted :
    (cs : List DelegationCandidate) (s : Text) → elem s (slugs (sorted cs)) ≡ elem s (slugs cs)
unfolding sorted elem
elem-sorted [] s = refl
elem-sorted (c ∷ cs) s = ground (arith, elem-insert_sorted c (sorted cs) s, elem-sorted cs s)

pub lookup-sorted :
    (cs : List DelegationCandidate) (s : Text)
    → distinct (slugs cs) ≡ true
    → lookup s (sorted cs) ≡ lookup s cs
unfolding sorted lookup distinct
lookup-sorted [] s u = refl
lookup-sorted (c ∷ cs) s u =
    ground (arith, lookup-insert_sorted c (sorted cs) s, elem-sorted cs c.slug, lookup-sorted cs s)
