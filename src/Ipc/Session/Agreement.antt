-- ===== src/Ipc/Session/Agreement.antt =====
-- What the two sides agree on by the hello of crates/yah-plugin-ipc/src/session/negotiate.rs.
use yet_another_harness.Prelude.{
  ◌≡◌, refl, ap, Bool, true, ◌||◌, ◌&&◌, not, List, [], ◌∷◌, ◌++◌, keep, Text, text_eq,
  text_eq_sound, mem_text, mem_nat, arith,
}
use yet_another_harness.Ipc.Types.{
  Hello, Accept, WireError, WireErrorKind, hello, HostMessage, protocol_version,
}
use yet_another_harness.Ipc.Session.State.{Codec, HostSession, active, closed}
use yet_another_harness.Ipc.Session.Negotiate.{
  on_pre_negotiation, on_hello, accept_hello, refuse_hello, refusal, unknown_features,
  features_in_force,
}

mem_text-keep :
    (p : Text → Bool) (t : Text) (ts : List Text) → mem_text t (keep p ts) ≡ (mem_text t ts && p t)
mem_text-keep p t [] = refl
mem_text-keep p t (u ∷ us) =
    let found = text_eq_sound u t in
    let same = λ (h : text_eq u t ≡ true). ap p (found h) in
    ground (arith, mem_text-keep p t us, same)

-- The ends of a hello: the session is active and has sent an accept whose version the worker
-- offered, and whose features are those of the host that the worker asked for, all the required
-- ones among them; or it is closed and has sent a refusal.
pub data Decided (h : Hello) (s t : HostSession) : Type 0 where
  accepted :
      (a : Accept)
      → t.phase ≡ active
      → t.outbox ≡ s.outbox ++ HostMessage.accept a ∷ []
      → mem_nat a.protocol_version h.protocol_versions ≡ true
      → ((feature : Text)
          → mem_text feature a.features ≡ (
              mem_text feature s.config.features
              && (mem_text feature h.features || mem_text feature h.required_features)))
      → ((feature : Text)
          → mem_text feature h.required_features ≡ true
          → mem_text feature a.features ≡ true)
      → Decided h s t
  refused :
      (error : WireError)
      → t.phase ≡ closed
      → t.outbox ≡ s.outbox ++ HostMessage.refuse error (protocol_version ∷ []) ∷ []
      → Decided h s t

in_force :
    (offered : List Text) (h : Hello) (feature : Text)
    → mem_text feature (features_in_force offered h) ≡ (
        mem_text feature offered
        && (mem_text feature h.features || mem_text feature h.required_features))
unfolding features_in_force
in_force offered h feature = mem_text-keep _ feature offered

-- With no unknown feature, the host offers every required one.
required_offered :
    (offered : List Text) (h : Hello) (feature : Text)
    → unknown_features offered h ≡ []
    → mem_text feature h.required_features ≡ true
    → mem_text feature offered ≡ true
unfolding unknown_features
required_offered offered h feature none_unknown required =
    let kept = mem_text-keep (λ f. not (mem_text f offered)) feature h.required_features in
    let empty = ap (mem_text feature) none_unknown in ground (arith, kept, empty, required)

required_in_force :
    (offered : List Text) (h : Hello) (feature : Text)
    → unknown_features offered h ≡ []
    → mem_text feature h.required_features ≡ true
    → mem_text feature (features_in_force offered h) ≡ true
required_in_force offered h feature none_unknown required =
    let found = in_force offered h feature in
    let offers = required_offered offered h feature none_unknown required in
    ground (arith, found, offers, required)

refuse_hello-Decided :
    (h : Hello) (s : HostSession) (kind : WireErrorKind) (message detail : Text)
    → Decided h s (refuse_hello kind message detail s)
unfolding refuse_hello
refuse_hello-Decided h s kind message detail = refused (refusal kind message) refl refl

accept_hello-Decided :
    (h : Hello) (s : HostSession)
    → mem_nat protocol_version h.protocol_versions ≡ true
    → unknown_features s.config.features h ≡ []
    → Decided h s (accept_hello h s)
unfolding accept_hello
accept_hello-Decided h s spoken known =
    accepted _ refl refl spoken (in_force s.config.features h)
      (λ feature. required_in_force s.config.features h feature known)

-- What holds after an accept and after a refusal holds after a hello.
on_hello_cases :
    (P : HostSession → Type 0) (c : Codec) (h : Hello) (s : HostSession)
    → ((kind : WireErrorKind) (message detail : Text) → P (refuse_hello kind message detail s))
    → (mem_nat protocol_version h.protocol_versions ≡ true
        → unknown_features s.config.features h ≡ []
        → P (accept_hello h s))
    → P (on_hello c h s)
unfolding on_hello
on_hello_cases P c h s broken agreed = grind (arith, broken, agreed)

-- Every hello is decided, one way or the other, in one step: an accept only with a version that the
-- worker offered, with the features of the host that the worker asked for in force, and with every
-- required one in force; else a refusal that closes the session.
pub on_pre_negotiation-Decided :
    (c : Codec) (h : Hello) (s : HostSession) → Decided h s (on_pre_negotiation c (hello h) s)
unfolding on_pre_negotiation
on_pre_negotiation-Decided c h s =
    on_hello_cases (Decided h s) c h s (refuse_hello-Decided h s) (accept_hello-Decided h s)
