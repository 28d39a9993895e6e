-- ===== src/Apps/Echo/Lines.antt =====
-- Which lines of its input the client of examples/networking/async_client.cpp sends.
use icelander.Prelude.{
  ℕ, ◌≡◌, refl, List, [], ◌∷◌, Bool-cases, inl, inr, if◌then◌else◌, Exec, ◌>>◌, pure, fun_ext,
}
use icelander.Bytes.{Platform}
use icelander.Enet.{Enet}
use icelander.Host.Peers.{same_text}
use icelander.Apps.Echo.{EchoState, quit_text, say, talk}

-- The lines to the first "quit", with it, but for the empty ones.
abbrev pub to_quit : List (List ℕ) → List (List ℕ)
to_quit [] = []
to_quit (l ∷ ls) = let rest = to_quit ls in if same_text l quit_text then l ∷ [] else l ∷ rest

abbrev pub nonempty : List (List ℕ) → List (List ℕ)
nonempty [] = []
nonempty ([] ∷ ls) = nonempty ls
nonempty ((c ∷ cs) ∷ ls) = (c ∷ cs) ∷ nonempty ls

module _ ⦃m : Platform⦄ (e : Enet) where
  abbrev pub say_all : ℕ → List (List ℕ) → Exec (EchoState e) (Unit {0})
  say_all i [] = pure tt
  say_all i (l ∷ ls) = say e i l >> say_all i ls

  then_same :
      (b : Exec (EchoState e) (Unit {0})) (f g : Exec (EchoState e) (Unit {0})) (s : EchoState e)
      → ((t : EchoState e) → f t ≡ g t)
      → (b >> f) s ≡ (b >> g) s
  then_same b f g s h = rw (fun_ext h) refl

  -- The loop sends just the lines that are not empty, in order, to the first "quit", which it sends too.
  pub talk-say_all :
      (i : ℕ) (inputs : List (List ℕ)) (s : EchoState e)
      → talk e i inputs s ≡ say_all i (to_quit (nonempty inputs)) s
  unfolding talk
  talk-say_all i [] s = refl
  talk-say_all i ([] ∷ inputs) s = talk-say_all i inputs s
  talk-say_all i ((c ∷ cs) ∷ inputs) s = elim (Bool-cases (same_text (c ∷ cs) quit_text)) [
    | inl quits ↦ rw quits refl
    | inr goes ↦ rw goes (
        then_same (say e i (c ∷ cs)) (talk e i inputs) (say_all i (to_quit (nonempty inputs))) s
          (λ t. talk-say_all i inputs t))
  ]
