-- ===== src/Suppression/Kept.antt =====
-- The control tokens of a reply survive its normalisation.
use diana_qq_bot.Prelude.{ℕ, ◌≡◌, refl, Bool, true, false, ◌&&◌, [], ◌∷◌, ◌++◌, arith}
use diana_qq_bot.Prelude.Text.{Text}
use diana_qq_bot.Prelude.Search.{contains, has_prefix}
use diana_qq_bot.Suppression.Intent.{
  reply_suppression_marker, reply_refusal_marker, intent_of, consume_reply_control_intent,
  normalize_reply, with_marker, normalize_reply_preserving_control_intent,
}

has_prefix_self : (p : Text) → has_prefix p p ≡ true
unfolding has_prefix
has_prefix_self [] = refl
has_prefix_self (c ∷ p) = ground (arith, has_prefix_self p)

has_prefix_longer : (p t u : Text) → has_prefix p t ≡ true → has_prefix p (t ++ u) ≡ true
unfolding has_prefix
has_prefix_longer [] t u h = refl
has_prefix_longer (c ∷ p) [] u h = cc
has_prefix_longer (c ∷ p) (d ∷ t) u h = ground (arith, has_prefix_longer p t u)

contains-prefix : (p t : Text) → has_prefix p t ≡ true → contains p t ≡ true
unfolding contains
contains-prefix p [] h = h
contains-prefix p (c ∷ t) h = ground arith

-- A part of a text is a part of a longer one, at its beginning or its end.
contains_longer : (p t u : Text) → contains p t ≡ true → contains p (t ++ u) ≡ true
unfolding contains
contains_longer p [] u h = contains-prefix p u (has_prefix_longer p [] u h)
contains_longer p (c ∷ t) u h = ground (arith, has_prefix_longer p (c ∷ t) u, contains_longer p t u)

contains_end : (p t : Text) → contains p (t ++ p) ≡ true
unfolding contains
contains_end p [] = contains-prefix p p (has_prefix_self p)
contains_end p (c ∷ t) = ground (arith, contains_end p t)

marked : (b : Bool) (p t : Text) → (b && contains p (with_marker b p t)) ≡ b
marked false p t = refl
marked true p t = contains_end p t

marked_before :
    (b c : Bool) (p q t : Text) → (b && contains p (with_marker c q (with_marker b p t))) ≡ b
marked_before false c p q t = refl
marked_before true false p q t = contains_end p t
marked_before true true p q t = contains_longer p (t ++ p) q (contains_end p t)

-- The control tokens that a reply has are found again in its normalised form, however short that is
-- cut.
pub normalize-keeps_intent :
    (reply : Text) (max_runes : ℕ)
    → let before = (consume_reply_control_intent reply).1 in
      let after =
        (consume_reply_control_intent
          (normalize_reply_preserving_control_intent reply max_runes)).1 in
      ((before.refuse_current && after.refuse_current) ≡ before.refuse_current)
      × ((before.suppress_current_user && after.suppress_current_user)
          ≡ before.suppress_current_user)
unfolding consume_reply_control_intent normalize_reply_preserving_control_intent intent_of
normalize-keeps_intent reply max_runes =
    let (text, intent) = consume_reply_control_intent reply in
    let cut = normalize_reply text max_runes in
    (
      marked_before intent.refuse_current intent.suppress_current_user reply_refusal_marker
          reply_suppression_marker cut,
      marked intent.suppress_current_user reply_suppression_marker
          (with_marker intent.refuse_current reply_refusal_marker cut),
    )
