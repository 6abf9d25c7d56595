-- ===== src/Hub/Lifecycle/Open.antt =====
-- The invariant of the hub's channels, and facts on open channels and distinct readers.
use game_server_manager.Base.{
  ℕ, ◌<◌, ◌≤◌, ◌≡◌, refl, ap, ◌∙◌, sym, inl, inr, not, false, some, List, [], ◌∷◌, String, arith,
  nat_eq, lookup, insert, lookup-insert, nat_key, string_key, keep, Has, Bool-cases,
}
use game_server_manager.Hub.{AgentConnection, Chan, Effect, done, blocks, panics}
use game_server_manager.Hub.Lifecycle.{System, has_send}

abbrev pub Channels : Type 0
Channels = List (ℕ × Chan)

abbrev pub IsOpen : Channels → ℕ → Type 0
IsOpen chans ref = (c : Chan) × (lookup ref chans ≡ some c) × (c.closed ≡ false)

-- Distinct channels, newest first, all below n.
abbrev pub Below : ℕ → List AgentConnection → Type 0
Below n [] = Unit {0}
Below n (a ∷ rs) = (a.send < n) × Below a.send rs

-- Who is registered still has a running reader, every running reader's channel is open, and no two
-- readers share a channel.
pub record Inv (s : System) : Type 0 where
  pub registered :
      (n : String) (a : AgentConnection)
      → Has (n, a) s.hub.agents
      → (a.agent_name ≡ n) × Has a s.readers
  pub opened : (a : AgentConnection) → Has a s.readers → IsOpen s.hub.channels a.send
  pub fresh : Below s.next s.readers

abbrev pub Holds : (System → Type 0) → Effect System → Type 0
Holds P (done s) = P s
Holds P blocks = Unit {0}
Holds P panics = ⊥

pub Below-mono : {m n : ℕ} (rs : List AgentConnection) → m ≤ n → Below m rs → Below n rs
Below-mono [] h b = tt
Below-mono (a ∷ rs) h b = (omega arith, b.1)

pub Below-keep :
    (ref n : ℕ) (rs : List AgentConnection)
    → Below n rs
    → Below n (keep (λ a. not (has_send ref a)) rs)
Below-keep ref n [] b = tt
Below-keep ref n (a ∷ rs) b = ground (
  arith,
  Below-keep ref a.send rs b.1,
  Below-mono {m = a.send} {n = n} (keep (λ a. not (has_send ref a)) rs),
)

pub Has-Below :
    (n : ℕ) (rs : List AgentConnection) (a : AgentConnection) → Below n rs → Has a rs → a.send < n
Has-Below n [] a b h = absurd h
Has-Below n (x ∷ rs) a b (inl e) = rw e b.0
Has-Below n (x ∷ rs) a b (inr h) = omega (arith, Has-Below x.send rs a b.1 h)

pub send_injective :
    (n : ℕ) (rs : List AgentConnection) (a b : AgentConnection)
    → Below n rs
    → Has a rs
    → Has b rs
    → a.send ≡ b.send
    → a ≡ b
send_injective n [] a b w h k e = absurd h
send_injective n (x ∷ rs) a b w (inl p) (inl q) e = p ∙ sym q
send_injective n (x ∷ rs) a b w (inl p) (inr k) e =
    absurd (omega (arith, Has-Below x.send rs b w.1 k, ap (λ (y : AgentConnection). y.send) p))
send_injective n (x ∷ rs) a b w (inr h) (inl q) e =
    absurd (omega (arith, Has-Below x.send rs a w.1 h, ap (λ (y : AgentConnection). y.send) q))
send_injective n (x ∷ rs) a b w (inr h) (inr k) e = send_injective x.send rs a b w.1 h k e

pub IsOpen-insert :
    (chans : Channels) (ref r : ℕ) (c : Chan)
    → c.closed ≡ false
    → IsOpen chans r
    → IsOpen (insert ref c chans) r
IsOpen-insert chans ref r c e (d, found, open_) = elim (Bool-cases (nat_eq ref r)) [
  | inl same ↦ (c, lookup-insert ref r c chans ∙ rw same refl, e)
  | inr other ↦ (d, lookup-insert ref r c chans ∙ rw other found, open_)
]

pub IsOpen-insert_ne :
    (chans : Channels) (ref r : ℕ) (c : Chan)
    → nat_eq ref r ≡ false
    → IsOpen chans r
    → IsOpen (insert ref c chans) r
IsOpen-insert_ne chans ref r c other (d, found, open_) =
    (d, lookup-insert ref r c chans ∙ rw other found, open_)
