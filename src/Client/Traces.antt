-- ===== src/Client/Traces.antt =====
-- What holds of a client after any sequence of calls, threads and datagrams.
use game_network.Base.{true, false, ◌≡◌, refl, ◌⊎◌, inl, inr, arith}
use game_network.Platform.{Host, Crypto, KeyExchange}
use game_network.Client.{Client, ClientState, sending_challenge_response, is_connected}
use game_network.Client.Machine.{
  Step, Edge, stays, leaves, accepted, answers, requests, responds, Step-Edge,
}

entered :
    (a b : ClientState)
    → Edge a b
    → is_connected b ≡ true
    → (is_connected a ≡ true) ⊎ (a ≡ sending_challenge_response)
entered _ _ (answers _ _ (stays _)) p = inl p
entered _ _ (answers _ _ (leaves _)) p = ground arith
entered _ _ (answers _ _ accepted) p = inr refl
entered _ _ requests p = ground arith
entered _ _ (responds _) p = ground arith

module _ (h : Host) (c : Crypto) (x : KeyExchange) where
  -- Steps one after the other.
  pub data Steps : Client → Client → Type 0 where
    none_yet : (s : Client) → Steps s s
    then_one : (s t u : Client) → Steps s t → Step h c x t u → Steps s u

  -- A walk from `s` to `t` that goes from the answered challenge to the connection by one step.
  pub record Enters (s t : Client) : Type 0 where
    pub before : Client
    pub behind : Client
    pub first : Steps s before
    pub entry : Step h c x before behind
    pub rest : Steps behind t
    pub from_response : before.state ≡ sending_challenge_response
    pub to_connected : is_connected behind.state ≡ true

  longer : (s t u : Client) → Enters s t → Step h c x t u → Enters s u
  longer s t u e step = record {
    before = e.before;
    behind = e.behind;
    first = e.first;
    entry = e.entry;
    rest = then_one e.behind t u e.rest step;
    from_response = e.from_response;
    to_connected = e.to_connected;
  }

  -- A client that is not connected and is so after any sequence of calls, threads and datagrams has
  -- been connected by one step of it, from the state in which a challenge is answered.
  pub Steps-Enters :
      (s t : Client)
      → is_connected s.state ≡ false
      → Steps s t
      → is_connected t.state ≡ true
      → Enters s t
  Steps-Enters s _ e (none_yet _) f = ground arith
  Steps-Enters s t e (then_one _ u _ walk step) f =
      elim (entered u.state t.state (Step-Edge h c x u t step) f) [
        | inl still ↦ longer s u t (Steps-Enters s u e walk still) step
        | inr at ↦ record {
          before = u;
          behind = t;
          first = walk;
          entry = step;
          rest = none_yet t;
          from_response = at;
          to_connected = f;
        }
      ]
