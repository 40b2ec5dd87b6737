-- ===== src/Tests/Versions.antt =====
-- A versioned store held in memory, for the tests: every object has the one version `v`.
use tslock.Prelude.{
  ◌≡◌, refl, sym, ◌∙◌, ap, String, Option, none, some, Table, put, Exec, Result, ok, throw,
  Exception, true, Bool, inl, inr, ◌==◌, Bool-cases, Option-cases, if◌then◌else◌,
}
use tslock.Backend.{Put, Got, Writes}

module _ {V Ver : Type 0} (v : Ver) (refused not_found : Exception) where
  abbrev tagged : Option V → Option (Ver × V)
  tagged none = none
  tagged (some d) = some (v, d)

  abbrev pub object_in : Table V → String → Option (Ver × V)
  object_in w key = tagged (w key)

  abbrev answer_get : Table V → Option V → Result (Ver × V) × Table V
  answer_get w none = (throw not_found, w)
  answer_get w (some d) = (ok (v, d), w)

  abbrev pub get_in : String → Exec (Table V) (Ver × V)
  get_in key w = answer_get w (w key)

  abbrev answer_new : String → V → Table V → Option V → Result (Unit {0}) × Table V
  answer_new key d w none = (ok tt, put w key d)
  answer_new key d w (some old) = (throw refused, w)

  -- A write that asks for no object.
  abbrev pub insert_in : String → V → Exec (Table V) (Unit {0})
  insert_in key d w = answer_new key d w (w key)

  put-Writes : (key : String) (d : V) (w : Table V) → Writes object_in w (put w key d) key d
  put-Writes key d w k = elim (Bool-cases (key == k)) [ inl e ↦ rw e refl | inr e ↦ rw e refl ]

  pub get_in-Got :
      (test : Exception → Bool) (key : String) (w : Table V)
      → Got object_in test w (get_in key w).1 key (get_in key w).0
  get_in-Got test key w = elim (Option-cases (w key)) [
    | inl e ↦ rw e (refl, λ x. ap tagged e)
    | inr (d, e) ↦ rw e (refl, ap tagged e)
  ]

  pub insert_in-Put :
      (test : Exception → Bool) (key : String) (d : V) (w : Table V)
      → Put object_in test w (insert_in key d w).1 key none d (insert_in key d w).0
  insert_in-Put test key d w = elim (Option-cases (w key)) [
    | inl e ↦ rw e (ap tagged e, put-Writes key d w)
    | inr (m, e) ↦ rw e (inl (λ k. refl), λ x k. refl)
  ]

  -- A write that asks for a version.
  module _ (is_v : Ver → Bool) (is_v-eq : (x : Ver) → is_v x ≡ true → x ≡ v) where
    abbrev answer_put : String → V → Table V → Ver → Option V → Result (Unit {0}) × Table V
    answer_put key d w x none = (throw refused, w)
    answer_put key d w x (some old) = if is_v x then (ok tt, put w key d) else (throw refused, w)

    abbrev pub replace_in : String → V → Ver → Exec (Table V) (Unit {0})
    replace_in key d x w = answer_put key d w x (w key)

    pub replace_in-Put :
        (test : Exception → Bool) (key : String) (d : V) (x : Ver) (w : Table V)
        → Put object_in test w (replace_in key d x w).1 key (some x) d (replace_in key d x w).0
    replace_in-Put test key d x w = elim (Option-cases (w key)) [
      | inl e ↦ rw e (inl (λ k. refl), λ y k. refl)
      | inr (old, e) ↦ elim (Bool-cases (is_v x)) [
        | inl f ↦
            rw (e, f)
              ((old, ap tagged e ∙ ap (λ z. some (z, old)) (sym (is_v-eq x f))), put-Writes key d w)
        | inr f ↦ rw (e, f) (inl (λ k. refl), λ y k. refl)
      ]
    ]
