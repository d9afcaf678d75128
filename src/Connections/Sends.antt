-- ===== src/Connections/Sends.antt =====
-- A frame goes to every socket, and those that do not take it are evicted.
use agents_universe.Prelude.{
  ℕ, ◌≡◌, refl, Bool, true, false, ◌&&◌, ◌||◌, not, String, List, [], ◌∷◌, ◌==◌, keep, Option-cases,
  List-cases, ==_iff, Bool-cases, inl, inr, ap, sym, ◌∙◌, arith, eq_iff,
}
use agents_universe.Prelude.Dict.{get, get-put, get-pop}
use agents_universe.Connections.{
  Manager, has_socket, discard_socket, sockets, store_sockets, remove_socket, evict, send_all, send,
}

unfoldable pub any_delivered : (ℕ → Bool) → List ℕ → Bool
any_delivered delivers [] = false
any_delivered delivers (ws ∷ socks) = delivers ws || any_delivered delivers socks

sockets-store :
    (m : Manager) (c : String) (socks : List ℕ) → sockets (store_sockets m c socks) c ≡ socks
unfolding sockets store_sockets
sockets-store m c [] = ground (arith, get-pop m.connections c c, eq_iff c c)
sockets-store m c (ws ∷ socks) = ground (arith, get-put c (ws ∷ socks) m.connections c, eq_iff c c)

sockets-evict :
    (m : Manager) (c : String) (ws : ℕ) → sockets (evict m c ws) c ≡ discard_socket (sockets m c) ws
unfolding sockets evict remove_socket discard_socket
sockets-evict m c ws = elim (Option-cases (get m.connections c)) [
  | inl no_one ↦ rw (no_one, remove_socket) (ground (arith, no_one))
  | inr (socks, known) ↦
      rw (known, remove_socket)
        (sockets-store m c (discard_socket socks ws) ∙ ground (arith, known))
]

keep-keep :
    (p q r : ℕ → Bool) (xs : List ℕ)
    → ((x : ℕ) → (p x && q x) ≡ r x)
    → keep p (keep q xs) ≡ keep r xs
keep-keep p q r [] h = refl
keep-keep p q r (x ∷ xs) h = ground (arith, h x, keep-keep p q r xs h)

keep_same :
    (p q : ℕ → Bool) (xs : List ℕ)
    → ((x : ℕ) → has_socket xs x ≡ true → p x ≡ q x)
    → keep p xs ≡ keep q xs
unfolding has_socket
keep_same p q [] h = refl
keep_same p q (x ∷ xs) h =
    ground (arith, h x (ground arith), keep_same p q xs (λ y m. h y (ground arith)))

keep-all : (p : ℕ → Bool) (xs : List ℕ) → ((x : ℕ) → p x ≡ true) → keep p xs ≡ xs
keep-all p [] h = refl
keep-all p (x ∷ xs) h = ground (arith, h x, keep-all p xs h)

-- What holds of one number holds of an equal one.
taken_same : (p : ℕ → Bool) (v x : ℕ) → p v ≡ true → (v == x) ≡ true → p x ≡ true
taken_same p v x taken same = rw (← (==_iff v x).0 same) taken

send_all_lem :
    (delivers : ℕ → Bool) (m : Manager) (c : String) (socks : List ℕ)
    → (sockets (send_all delivers m c socks).0 c
        ≡ keep (λ v. not (has_socket socks v) || delivers v) (sockets m c))
      × ((send_all delivers m c socks).1 ≡ any_delivered delivers socks)
unfolding send_all any_delivered has_socket discard_socket
send_all_lem delivers m c [] = (sym (keep-all _ (sockets m c) (λ x. refl)), refl)
send_all_lem delivers m c (ws ∷ socks) = elim (Bool-cases (delivers ws)) [
  | inl taken ↦
      let (e, d) = send_all_lem delivers m c socks in
      rw taken (
        e ∙ keep_same _ _ (sockets m c) (λ x h. ground (arith, taken_same delivers ws x taken)),
        refl,
      )
  | inr lost ↦
      let (e, d) = send_all_lem delivers (evict m c ws) c socks in
      rw lost (
        e
            ∙ (ap (keep (λ v. not (has_socket socks v) || delivers v)) (sockets-evict m c ws)
                ∙ keep-keep _ (λ v. not (v == ws)) _ (sockets m c)
                    (λ x. ground (arith, taken_same (λ v. not (delivers v)) ws x (ground arith)))),
        d,
      )
]

-- A frame that can be encoded is taken by the sockets of the conversation that deliver it, which
-- stay, in their order, while all others are evicted; the answer says whether one took it. A frame
-- that cannot be encoded is dropped, and evicts no socket.
pub send_lem :
    (delivers : ℕ → Bool) (m : Manager) (c : String)
    → (sockets (send delivers true m c).0 c ≡ keep delivers (sockets m c))
      × ((send delivers true m c).1 ≡ any_delivered delivers (sockets m c))
      × (send delivers false m c ≡ (m, false))
unfolding send any_delivered
send_lem delivers m c = elim (List-cases (sockets m c)) [
  | inl no_one ↦ (
    rw (no_one, send, keep) no_one,
    rw (no_one, send, any_delivered) refl,
    rw (no_one, send) refl,
  )
  | inr (ws, socks, someone) ↦
      let (e, d) = send_all_lem delivers m c (ws ∷ socks) in
      (
        rw (someone, send)
            (e
              ∙ (ap (keep (λ v. not (has_socket (ws ∷ socks) v) || delivers v)) someone
                  ∙ keep_same (λ v. not (has_socket (ws ∷ socks) v) || delivers v) delivers
                      (ws ∷ socks) (λ x h. rw h refl))),
        rw (someone, send) d,
        rw (someone, send) refl,
      )
]
