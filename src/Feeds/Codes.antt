-- ===== src/Feeds/Codes.antt =====
-- The codes of the subscription managers: texts joined by `:`, as the list of the texts.
-- A feed id, a node id and a subfeed hash have no `:` in them, so the text stands for the list.
use kachery_p2p.Base.{
  ◌≡◌, ◌↔◌, Bool, true, false, ◌&&◌, List, [], ◌∷◌, String, arith, Eq, string_eq, ◌==◌,
}
use text.Mathlib.TextEquality.{eq_iff}

abbrev pub Code : Type 0
Code = List String

abbrev pub code_beq : Code → Code → Bool
code_beq [] [] = true
code_beq (x ∷ xs) (y ∷ ys) = x == y && code_beq xs ys
code_beq _ _ = false

pub code_beq_iff : (a b : Code) → (code_beq a b ≡ true) ↔ (a ≡ b)
code_beq_iff [] [] = ground arith
code_beq_iff [] (y ∷ ys) = ground arith
code_beq_iff (x ∷ xs) [] = ground arith
code_beq_iff (x ∷ xs) (y ∷ ys) = ground (arith, eq_iff x y, code_beq_iff xs ys)

instance abbrev pub code_eq : Eq Code
code_eq = record { beq = code_beq; beq_iff = code_beq_iff }

abbrev pub make_subscription_code : (remote_node_id feed_id subfeed_hash : String) → Code
make_subscription_code remote_node_id feed_id subfeed_hash =
    remote_node_id ∷ feed_id ∷ subfeed_hash ∷ []

abbrev pub make_subfeed_code : (feed_id subfeed_hash : String) → Code
make_subfeed_code feed_id subfeed_hash = feed_id ∷ subfeed_hash ∷ []
