-- ===== src/Escrow/Evolves.antt =====
-- What every action on the escrows is held to: the cache stays coherent, and each row moves along
-- the state machine. One rule for each way in which the services build an action.
use mathlib.Core.Path.{subst}
use mathlib.Core.Option.{some-injective}
use trust_link_backend.Prelude.{
  String, Option, some, Bool, true, false, ◌≡◌, refl, sym, ap, ◌∙◌, inl, inr, if◌then◌else◌, ◌==◌,
  eq_iff,
}
use trust_link_backend.Exec.{Exec, Outcome, ok, err, continue, finally, after, ◌>>=◌}
use trust_link_backend.Escrow.{EscrowRecord}
use trust_link_backend.Backend.{Backend, IsBackend, World}
use trust_link_backend.Escrow.Lifecycle.{Follows, Moves, Moves-refl, Moves-trans}
use trust_link_backend.Escrow.Repository.{write, find_by_id, stamp}
use trust_link_backend.Escrow.Repository.Coherence.{
  IsCoherent, IsCoherent-write, write-cases, read_lem,
}

module _ {R D C : Type 0} (b : Backend R D C) where
  open b use {escrow_table as T}

  pub record Evolution (t : R) (c : C) (t' : R) : Type 0 where
    pub coherent : IsCoherent b c t'
    pub moves : (j : String) → Moves (T.row j t) (T.row j t')

  -- From the table `t` to the state `w`.
  abbrev pub Evolves : R → World R D C → Type 0
  Evolves t w = Evolution t w.cached w.escrows

  pub Evolves-refl : (w : World R D C) → IsCoherent b w.cached w.escrows → Evolves w.escrows w
  Evolves-refl w i = record { coherent = i; moves = λ j. Moves-refl (T.row j w.escrows) }

  pub Evolves-trans :
      (t : R) (w w' : World R D C) → Evolves t w → Evolves w.escrows w' → Evolves t w'
  Evolves-trans t w w' e f = record {
    coherent = f.coherent;
    moves = λ j.
        Moves-trans (T.row j t) (T.row j w.escrows) (T.row j w'.escrows) (e.moves j) (f.moves j);
  }

  module _ (laws : IsBackend b) where
    Moves-if :
        (x : Bool) (o : Option EscrowRecord) (n : EscrowRecord)
        → (x ≡ true → Moves o (some n))
        → Moves o (if x then some n else o)
    Moves-if true o n h = h refl
    Moves-if false o n h = Moves-refl o

    -- A write whose change of the row follows the state machine.
    pub Evolves-write :
        (id : String) (f : EscrowRecord → EscrowRecord) (w : World R D C) (r : EscrowRecord)
        → T.row id w.escrows ≡ some r
        → ((x : EscrowRecord) → (f x).id ≡ x.id)
        → Follows r (stamp w.now f r)
        → IsCoherent b w.cached w.escrows
        → Evolves w.escrows (write b id f w).1
    Evolves-write id f w r at same step i = record {
      coherent = IsCoherent-write b laws id f w same i;
      moves = elim (write-cases b laws id f w) [
        | inl e ↦ rw e (λ j. Moves-refl (T.row j w.escrows))
        | inr (old, t, c, found, e, rows, held) ↦ rw e (λ j. rw (rows j) (
            Moves-if (id == j) (T.row j w.escrows) (stamp w.now f old) (λ x.
              subst (λ o. Moves o (some (stamp w.now f old)))
                (sym found ∙ ap (λ k. T.row k w.escrows) ((eq_iff id j).0 x))
                (subst (λ z. Follows z (stamp w.now f z)) (some-injective _ _ (sym at ∙ found))
                  step))))
      ];
    }

    -- A write that leaves the state and the deal of every row.
    pub Evolves-kept :
        (id : String) (f : EscrowRecord → EscrowRecord) (w : World R D C)
        → ((x : EscrowRecord) → Follows x (stamp w.now f x))
        → ((x : EscrowRecord) → (f x).id ≡ x.id)
        → IsCoherent b w.cached w.escrows
        → Evolves w.escrows (write b id f w).1
    Evolves-kept id f w step same i = elim (write-cases b laws id f w) [
      | inl e ↦ rw e (Evolves-refl w i)
      | inr (old, _, _, found, _, _, _) ↦ Evolves-write id f w old found same (step old) i
    ]

    -- The rest of a `do` block runs only if the write was made.
    pub Evolves-bind :
        {A B : Type 0} (t : R) (m : Exec (World R D C) A) (k : A → Exec (World R D C) B)
        (w : World R D C)
        → Evolves t (m w).1
        → ((a : A) (w' : World R D C)
            → m w ≡ (ok a, w')
            → IsCoherent b w'.cached w'.escrows
            → Evolves w'.escrows (k a w').1)
        → Evolves t ((m >>= k) w).1
    Evolves-bind {A = A} t m k w e rest = go (m w) refl e
      where
        go : (x : Outcome A × World R D C) → m w ≡ x → Evolves t x.1 → Evolves t (continue k x).1
        go (ok a, w') p e' = Evolves-trans t w' (k a w').1 e' (rest a w' p e'.coherent)
        go (err x, w') p e' = e'

    -- An action that leaves the escrows and the cache.
    abbrev pub Frame : {A : Type 0} → Exec (World R D C) A → World R D C → Type 0
    Frame m w = ((m w).1.escrows ≡ w.escrows) × ((m w).1.cached ≡ w.cached)

    pub Evolves-Frame :
        {A B : Type 0} (m : Exec (World R D C) A) (k : A → Exec (World R D C) B) (w : World R D C)
        → Frame m w
        → IsCoherent b w.cached w.escrows
        → ((a : A) (w' : World R D C)
            → w'.escrows ≡ w.escrows
            → IsCoherent b w'.cached w'.escrows
            → Evolves w'.escrows (k a w').1)
        → Evolves w.escrows ((m >>= k) w).1
    Evolves-Frame {A = A} m k w (same, kept) i rest = go (m w) same kept
      where
        go :
            (x : Outcome A × World R D C)
            → x.1.escrows ≡ w.escrows
            → x.1.cached ≡ w.cached
            → Evolves w.escrows (continue k x).1
        go (ok a, w') p q = subst (λ t. Evolves t (k a w').1) p (rest a w' p (rw (p, q) i))
        go (err x, w') p q = rw (p, q) (Evolves-refl w i)

    pub Evolves-if :
        {A : Type 0} (t : R) (x : Bool) (m n : Exec (World R D C) A) (w : World R D C)
        → (x ≡ true → Evolves t (m w).1)
        → (x ≡ false → Evolves t (n w).1)
        → Evolves t ((if x then m else n) w).1
    Evolves-if t true m n w h k = h refl
    Evolves-if t false m n w h k = k refl

    pub Evolves-find :
        {B : Type 0} (id : String) (k : Option EscrowRecord → Exec (World R D C) B)
        (w : World R D C)
        → IsCoherent b w.cached w.escrows
        → ((o : Option EscrowRecord) (w' : World R D C)
            → IsCoherent b w'.cached w'.escrows
            → T.row id w'.escrows ≡ o
            → Evolves w'.escrows (k o w').1)
        → Evolves w.escrows ((find_by_id b id >>= k) w).1
    Evolves-find id k w i rest =
        let (c, i', read) = read_lem b laws id w i in
        elim read [
          | inl e ↦ rw e (Evolves-refl (record w { cached = c }) i')
          | inr e ↦ rw e (rest (T.row id w.escrows) (record w { cached = c }) i' refl)
        ]

    pub Evolves-finally :
        {A B : Type 0} (t : R) (m : Exec (World R D C) A) (cleanup : Exec (World R D C) B)
        (w : World R D C)
        → Evolves t (m w).1
        → ((w' : World R D C)
            → IsCoherent b w'.cached w'.escrows
            → Evolves w'.escrows (cleanup w').1)
        → Evolves t (finally m cleanup w).1
    Evolves-finally {A = A} {B = B} t m cleanup w e rest = go (m w) e
      where
        last :
            (r : Outcome A) (x : Outcome B × World R D C)
            → Evolves t x.1
            → Evolves t (after (λ _. x) (r, w)).1
        last r (ok _, w') p = p
        last r (err _, w') p = p

        go : (x : Outcome A × World R D C) → Evolves t x.1 → Evolves t (after cleanup x).1
        go (r, w') p =
            last r (cleanup w') (Evolves-trans t w' (cleanup w').1 p (rest w' p.coherent))
