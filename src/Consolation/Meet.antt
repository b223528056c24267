-- ===== src/Consolation/Meet.antt =====
-- Where two tokens meet: what is counted before and after.
use plan_my_pickle_backend.Base.{
  ℕ, ◌+◌, ◌≡◌, refl, ◌∙◌, List, [], ◌∷◌, ◌==◌, if◌then◌else◌, length, length-append, total,
  total-append, arith,
}
use plan_my_pickle_backend.Consolation.{
  ConsolationMatchSpec, LoserDrop, Token, empty, loser, winner, Drawn, set_feed, record_token,
  with_match, new_spec, meet,
}

-- 1 for a token that is somebody, for the loser of a slot, for a winner.
abbrev pub live : Token → ℕ
live empty = 0
live (loser i) = 1
live (winner r j) = 1

abbrev pub is_loser : ℕ → Token → ℕ
is_loser s empty = 0
is_loser s (loser i) = if i == s then 1 else 0
is_loser s (winner r j) = 0

abbrev pub is_winner : Token → ℕ
is_winner empty = 0
is_winner (loser i) = 0
is_winner (winner r j) = 1

abbrev pub drop_of : ℕ → LoserDrop → ℕ
drop_of s d = if d.main_slot == s then 1 else 0

length-set_feed :
    (kr kj r j team : ℕ) (ms : List ConsolationMatchSpec)
    → length (set_feed kr kj r j team ms) ≡ length ms
unfolding set_feed
length-set_feed kr kj r j team [] = refl
length-set_feed kr kj r j team (m ∷ ms) = ground (arith, length-set_feed kr kj r j team ms)

record_token-length :
    (r j team : ℕ) (t : Token) (st : Drawn)
    → length (record_token r j team t st).matches ≡ length st.matches
unfolding record_token
record_token-length r j team empty st = refl
record_token-length r j team (loser i) st = refl
record_token-length r j team (winner kr kj) st = length-set_feed kr kj r j team st.matches

record_token-drops :
    (r j team : ℕ) (t : Token) (st : Drawn) (s : ℕ)
    → total (drop_of s) (record_token r j team t st).drops
      ≡ total (drop_of s) st.drops + is_loser s t
unfolding record_token
record_token-drops r j team empty st s = omega arith
record_token-drops r j team (loser i) st s =
    let d : LoserDrop = record { main_slot = i; round = r; slot = j; team = team } in
    omega (arith, total-append (drop_of s) st.drops (d ∷ []))
record_token-drops r j team (winner kr kj) st s = omega arith

-- Tokens that become others while matches and drops are added.
pub record Flows (cur : List Token) (st : Drawn) (next : List Token) (out : Drawn) : Type 0 where
  pub lives : total live next + length out.matches ≡ total live cur + length st.matches
  pub losers :
      (s : ℕ)
      → total (is_loser s) next + total (drop_of s) out.drops
        ≡ total (is_loser s) cur + total (drop_of s) st.drops
  pub wins :
      total is_winner next ≡ 0
      → (total is_winner cur ≡ 0) × (length out.matches ≡ length st.matches)
  pub none_live : total live next ≡ 0 → total live cur ≡ 0

pub Flows-trans :
    (xs ys zs : List Token) (s t u : Drawn) → Flows xs s ys t → Flows ys t zs u → Flows xs s zs u
Flows-trans xs ys zs s t u f g = record {
  lives = omega (arith, f.lives, g.lives);
  losers = λ i. omega (arith, f.losers i, g.losers i);
  wins = λ e. let (w, same) = g.wins e in let (v, same') = f.wins w in (v, same ∙ same');
  none_live = λ h. f.none_live (g.none_live h);
}

-- Nothing is played, and the same somebody goes on.
skip-Flows :
    (a b t : Token) (st : Drawn)
    → live t ≡ live a + live b
    → is_winner t ≡ is_winner a + is_winner b
    → ((s : ℕ) → is_loser s t ≡ is_loser s a + is_loser s b)
    → Flows (a ∷ b ∷ []) st (t ∷ []) st
skip-Flows a b t st l w f = record {
  lives = omega (arith, l);
  losers = λ s. omega (arith, f s);
  wins = λ e. (omega (arith, w, e), refl);
  none_live = λ h. omega (arith, l, h);
}

play-Flows :
    (r j : ℕ) (a b : Token) (st : Drawn)
    → live a ≡ 1
    → live b ≡ 1
    → Flows
        (a ∷ b ∷ [])
        st
        (winner r j ∷ [])
        (record_token r j 2 b (record_token r j 1 a (with_match r j st)))
play-Flows r j a b st la lb =
    let one = record_token r j 1 a (with_match r j st) in
    record {
      lives = omega (
        arith,
        la,
        lb,
        record_token-length r j 2 b one,
        record_token-length r j 1 a (with_match r j st),
        length-append st.matches (new_spec r j ∷ []),
      );
      losers = λ s. omega (
        arith,
        record_token-drops r j 2 b one s,
        record_token-drops r j 1 a (with_match r j st) s,
      );
      wins = λ e. absurd (omega (arith, e));
      none_live = λ h. absurd (omega (arith, h));
    }

pub meet-Flows :
    (r j : ℕ) (a b : Token) (st : Drawn)
    → Flows (a ∷ b ∷ []) st ((meet r j a b st).0 ∷ []) (meet r j a b st).1
unfolding meet
meet-Flows r j empty empty st = skip-Flows empty empty empty st refl refl (λ s. refl)
meet-Flows r j empty (loser i) st =
    skip-Flows empty (loser i) (loser i) st refl refl (λ s. omega arith)
meet-Flows r j empty (winner kr kj) st =
    skip-Flows empty (winner kr kj) (winner kr kj) st refl refl (λ s. refl)
meet-Flows r j (loser i) empty st =
    skip-Flows (loser i) empty (loser i) st refl refl (λ s. omega arith)
meet-Flows r j (loser i) (loser i') st = play-Flows r j (loser i) (loser i') st refl refl
meet-Flows r j (loser i) (winner kr kj) st = play-Flows r j (loser i) (winner kr kj) st refl refl
meet-Flows r j (winner kr kj) empty st =
    skip-Flows (winner kr kj) empty (winner kr kj) st refl refl (λ s. refl)
meet-Flows r j (winner kr kj) (loser i) st = play-Flows r j (winner kr kj) (loser i) st refl refl
meet-Flows r j (winner kr kj) (winner kr' kj') st =
    play-Flows r j (winner kr kj) (winner kr' kj') st refl refl
