-- ===== src/Protocol/EmptyBay.antt =====
-- When the bay was last seen empty, and what was written since: predicates on what went over the wire
-- of discstakka/protocol.py.
use disc_stakka_web.Base.{
  ℕ, Bool, true, false, not, ◌==◌, ◌&&◌, ◌||◌, ◌≡◌, refl, arith, List, [], ◌∷◌, ◌⊎◌, inl, inr,
  subst, sym, ap, ◌∙◌,
}
use disc_stakka_web.Protocol.Packet.{cmd_request_state, cmd_set_pos, cmd_set_led}
use disc_stakka_web.Protocol.Handle.{WireEvent, heard, wrote, Operands, frame}
use disc_stakka_web.Protocol.Events.{EventInvariant}
use disc_stakka_web.Protocol.Replies.{BayReported}

-- What a frame tells the unit: the command byte and the operands.
abbrev pub order : List ℕ → List ℕ
order (_ ∷ _ ∷ _ ∷ _ ∷ rest) = rest
order _ = []

-- The command byte is that of a move.
abbrev pub turns : List ℕ → Bool
turns [] = false
turns (cmd ∷ _) = cmd == cmd_set_pos

-- A request of the state, the LED, or a move that presents no disc.
abbrev pub is_calm : List ℕ → Bool
is_calm (cmd ∷ _ ∷ eject ∷ _) =
    cmd == cmd_request_state || cmd == cmd_set_led || cmd == cmd_set_pos && eject == 0
is_calm (_ ∷ _) = false
is_calm [] = true

abbrev pub same_bytes : List ℕ → List ℕ → Bool
same_bytes [] [] = true
same_bytes (a ∷ xs) (b ∷ ys) = a == b && same_bytes xs ys
same_bytes _ _ = false

-- A packet was heard that answers a request of the state and shows no disc in the bay, and since then
-- nothing was written that could have brought one there, but for the same order.
abbrev pub SawEmptyBay : List ℕ → List WireEvent → Type 0
SawEmptyBay m [] = ⊥
SawEmptyBay m (heard q ∷ l) = BayReported false (heard q ∷ l) ⊎ SawEmptyBay m l
SawEmptyBay m (wrote g ∷ l) =
    ((is_calm (order g) || same_bytes (order g) m) ≡ true) × SawEmptyBay m l

-- Each move was written after an empty bay was seen.
abbrev pub IsGuarded : List WireEvent → Type 0
IsGuarded [] = Unit
IsGuarded (heard q ∷ l) = IsGuarded l
IsGuarded (wrote f ∷ l) = (turns (order f) ≡ true → SawEmptyBay (order f) l) × IsGuarded l

same_bytes-≡ : (xs ys : List ℕ) → same_bytes xs ys ≡ true → xs ≡ ys
same_bytes-≡ [] [] h = refl
same_bytes-≡ [] (b ∷ ys) h = absurd (ground arith)
same_bytes-≡ (a ∷ xs) [] h = absurd (ground arith)
same_bytes-≡ (a ∷ xs) (b ∷ ys) h =
    let e : a ≡ b = ground arith in
    let es : xs ≡ ys = same_bytes-≡ xs ys (ground arith) in ap (λ k. k ∷ xs) e ∙ ap (λ l. b ∷ l) es

pub same_bytes_self : (xs : List ℕ) → same_bytes xs xs ≡ true
same_bytes_self [] = refl
same_bytes_self (a ∷ xs) = ground (arith, same_bytes_self xs)

calm_or_empty : (g : List ℕ) → (is_calm g || same_bytes g []) ≡ true → is_calm g ≡ true
calm_or_empty [] h = refl
calm_or_empty (a ∷ xs) h = ground arith

-- What is so for no order in particular is so for each.
pub SawEmptyBay-any : (m : List ℕ) (l : List WireEvent) → SawEmptyBay [] l → SawEmptyBay m l
SawEmptyBay-any m [] h = h
SawEmptyBay-any m (heard q ∷ l) (inl h) = inl h
SawEmptyBay-any m (heard q ∷ l) (inr h) = inr (SawEmptyBay-any m l h)
SawEmptyBay-any m (wrote g ∷ l) h =
    let calm = calm_or_empty (order g) h.0 in (ground (arith, calm), SawEmptyBay-any m l h.1)

pub BayReported-SawEmptyBay : (l : List WireEvent) → BayReported false l → SawEmptyBay [] l
BayReported-SawEmptyBay [] h = h
BayReported-SawEmptyBay (heard q ∷ l) h = inl h
BayReported-SawEmptyBay (wrote f ∷ l) h = elim h [ ]

abbrev pub told : ℕ → Operands → List ℕ
told cmd x = cmd ∷ x.x1 ∷ x.x2 ∷ x.x3 ∷ x.x4 ∷ x.x5 ∷ []

-- Before the bay is looked at; after it; and at the move itself.
abbrev pub no_moves : ℕ → Operands → Bool
no_moves cmd x = not (cmd == cmd_set_pos)

abbrev pub calms : ℕ → Operands → Bool
calms cmd x = is_calm (told cmd x)

abbrev pub requests_or : List ℕ → ℕ → Operands → Bool
requests_or m cmd x = cmd == cmd_request_state || same_bytes (told cmd x) m

pub unguarded : EventInvariant no_moves IsGuarded
unfolding frame
unguarded = record {
  hears = λ p l h. h;
  sends = λ u m c x l e b h. ((λ t. absurd (ground (arith, e, t))), h);
}

abbrev pub Cleared : List ℕ → List WireEvent → Type 0
Cleared m l = IsGuarded l × SawEmptyBay m l

pub homing : EventInvariant calms (Cleared [])
unfolding frame
homing = record {
  hears = λ p l h. (h.0, inr h.1);
  sends =
      λ u m c x l e b h. (((λ t. SawEmptyBay-any (told c x) l h.1), h.0), (ground (arith, e), h.1));
}

request_turns_not :
    (m : List ℕ) (c : ℕ) (x : Operands)
    → requests_or m c x ≡ true
    → turns (told c x) ≡ true
    → same_bytes (told c x) m ≡ true
request_turns_not m c x e t = ground arith

request_or_same :
    (m : List ℕ) (c : ℕ) (x : Operands)
    → requests_or m c x ≡ true
    → (is_calm (told c x) || same_bytes (told c x) m) ≡ true
request_or_same m c x e = ground arith

pub moving : (m : List ℕ) → EventInvariant (requests_or m) (Cleared m)
unfolding frame
moving m = record {
  hears = λ p l h. (h.0, inr h.1);
  sends = λ u n c x l e b h. (
    (
      (λ t.
          subst (λ o. SawEmptyBay o l)
            (sym (same_bytes-≡ (told c x) m (request_turns_not m c x e t))) h.1),
      h.0,
    ),
    (request_or_same m c x e, h.1),
  );
}
