-- ===== src/Stripe/Keys.antt =====
-- Lists of rising offsets (queqiao/internal/stripe/stripe.go): the ready set, and the keys of the
-- outstanding chunks.
use sing_quic.Prelude.{
  ℕ, suc, ◌≤◌, ◌<◌, ◌≡◌, refl, Bool, true, false, not, ◌&&◌, ◌||◌, List, [], ◌∷◌, ◌++◌, ◌==◌, arith,
}
use sing_quic.SeqMap.{search, insert_order, remove_order}
use sing_quic.Stripe.Ready.{pending_has}

-- Offsets from `n` on and below `m`, that rise.
abbrev pub Between : ℕ → ℕ → List ℕ → Type 0
Between n m [] = n ≤ m
Between n m (k ∷ ks) = (n ≤ k) × Between (suc k) m ks

unfoldable pub holds : List ℕ → ℕ → Bool
holds [] j = false
holds (k ∷ ks) j = k == j || holds ks j

pub Between-le : (n m : ℕ) (ks : List ℕ) → Between n m ks → n ≤ m
Between-le n m [] h = h
Between-le n m (k ∷ ks) h = omega (arith, Between-le (suc k) m ks h.1)

pub Between-widen :
    (n n' m m' : ℕ) (ks : List ℕ) → n' ≤ n → m ≤ m' → Between n m ks → Between n' m' ks
Between-widen n n' m m' [] l r h = omega arith
Between-widen n n' m m' (k ∷ ks) l r h =
    (omega arith, Between-widen (suc k) (suc k) m m' ks (omega arith) r h.1)

pub Between-snoc :
    (n m m' : ℕ) (ks : List ℕ) → m < m' → Between n m ks → Between n m' (ks ++ (m ∷ []))
Between-snoc n m m' [] l h = (h, omega arith)
Between-snoc n m m' (k ∷ ks) l h = (h.0, Between-snoc (suc k) m m' ks l h.1)

pub holds-Between :
    (n m : ℕ) (ks : List ℕ) (j : ℕ) → Between n m ks → holds ks j ≡ true → (n ≤ j) × (j < m)
unfolding holds
holds-Between n m [] j h e = cc
holds-Between n m (k ∷ ks) j h e =
    ground (arith, Between-le (suc k) m ks h.1, holds-Between (suc k) m ks j h.1)

pub holds_below : (n m : ℕ) (ks : List ℕ) (j : ℕ) → Between n m ks → j < n → holds ks j ≡ false
unfolding holds
holds_below n m [] j h l = refl
holds_below n m (k ∷ ks) j h l = ground (arith, holds_below (suc k) m ks j h.1)

pub holds-snoc : (ks : List ℕ) (m j : ℕ) → holds (ks ++ (m ∷ [])) j ≡ (holds ks j || m == j)
unfolding holds
holds-snoc [] m j = ground arith
holds-snoc (k ∷ ks) m j = ground (arith, holds-snoc ks m j)

-- The search of the code finds what the list holds.
pub pending_has-holds :
    (n m : ℕ) (ks : List ℕ) (j : ℕ) → Between n m ks → pending_has ks j ≡ holds ks j
unfolding pending_has search holds
pending_has-holds n m [] j h = refl
pending_has-holds n m (k ∷ ks) j h =
    ground (arith, pending_has-holds (suc k) m ks j h.1, holds_below (suc k) m ks j h.1)

pub holds-insert_order :
    (ks : List ℕ) (k j : ℕ) → holds (insert_order ks k) j ≡ (k == j || holds ks j)
unfolding insert_order search holds
holds-insert_order [] k j = refl
holds-insert_order (i ∷ ks) k j = ground (arith, holds-insert_order ks k j)

pub insert_order-Between :
    (n m : ℕ) (ks : List ℕ) (k : ℕ)
    → n ≤ k
    → k < m
    → holds ks k ≡ false
    → Between n m ks
    → Between n m (insert_order ks k)
unfolding insert_order search holds
insert_order-Between n m [] k l r e h = (l, omega arith)
insert_order-Between n m (i ∷ ks) k l r e h = ground (arith, insert_order-Between (suc i) m ks k)

pub holds-remove_order :
    (n m : ℕ) (ks : List ℕ) (k j : ℕ)
    → Between n m ks
    → holds (remove_order ks k) j ≡ (not (k == j) && holds ks j)
unfolding remove_order search holds
holds-remove_order n m [] k j h = ground arith
holds-remove_order n m (i ∷ ks) k j h = ground (
  arith,
  holds-remove_order (suc i) m ks k j h.1,
  holds_below (suc i) m ks k h.1,
  holds_below (suc i) m ks j h.1,
)

pub remove_order-Between :
    (n m : ℕ) (ks : List ℕ) (k : ℕ) → Between n m ks → Between n m (remove_order ks k)
unfolding remove_order search
remove_order-Between n m [] k h = h
remove_order-Between n m (i ∷ ks) k h =
    ground (arith, remove_order-Between (suc i) m ks k h.1, Between-widen (suc i) n m m ks)

-- One offset taken out of the middle.
pub holds-split :
    (before after : List ℕ) (k j : ℕ)
    → holds (before ++ (k ∷ after)) j ≡ (k == j || holds (before ++ after) j)
unfolding holds
holds-split [] after k j = refl
holds-split (i ∷ before) after k j = ground (arith, holds-split before after k j)

pub Between-split :
    (n m : ℕ) (before after : List ℕ) (k : ℕ)
    → Between n m (before ++ (k ∷ after))
    → Between n m (before ++ after)
Between-split n m [] after k h = Between-widen (suc k) n m m after (omega arith) (omega arith) h.1
Between-split n m (i ∷ before) after k h = (h.0, Between-split (suc i) m before after k h.1)

pub holds-append : (xs ys : List ℕ) (j : ℕ) → holds (xs ++ ys) j ≡ (holds xs j || holds ys j)
unfolding holds
holds-append [] ys j = refl
holds-append (x ∷ xs) ys j = ground (arith, holds-append xs ys j)
