-- ===== src/Devil/SharedPrefs/Commit/Laws.antt =====
-- What a commit leaves on the device and in the collection, and what a load finds after it.
use car_multimedia_android_a.Base.{
  ◌≡◌, refl, sym, ap, subst, ◌∙◌, ◌≢◌, ◌⊎◌, Bool, true, false, none, some, List, [], ◌∷◌, String,
  arith, if◌then◌else◌, Bool-cases, inl, inr, leb,
}
use car_multimedia_android_a.Devil.SharedPrefs.Elements.{Element, Result, raised, returned}
use car_multimedia_android_a.Devil.SharedPrefs.Collection.{
  SharedPrefs, new_shared_prefs, get_child, drop_child, remove,
}
use car_multimedia_android_a.Devil.SharedPrefs.Commit.{
  Device, Xml, directory, path, and_then, find_context, split_lines, get_security_context,
  apply_context, save, save_file, label_file, document, chcon, finish_commit, commit, load,
  marshmallow,
}

-- The commands that Commit runs once the file is written.
pub data IsLabelling : List String → Type 0 where
  lists_contexts : IsLabelling ("ls" ∷ "-Z" ∷ "/data/data/" ∷ [])
  sets_context : (context p : String) → IsLabelling ("chcon" ∷ "-R" ∷ context ∷ p ∷ [])

-- Where WriteFile returns, the file is there, and ReadFile gives its text, with other ends of the
-- lines and a last one, which is `as_read` of it; `ls`, `chcon` and KillAll leave every file as it
-- is.
pub record IsLawful (D : Device) (as_read : String → String) : Type 0 where
  pub exists-write_file :
      (p text : String) (d : D.State)
      → (D.write_file p text d).0 ≡ returned tt
      → D.file_exists p (D.write_file p text d).1 ≡ true
  pub read_file-write_file :
      (p text : String) (d : D.State)
      → (D.write_file p text d).0 ≡ returned tt
      → D.read_file p (D.write_file p text d).1 ≡ returned (as_read text)
  pub exists-run_shell_command :
      (p : String) {cmd : List String} (d : D.State)
      → IsLabelling cmd
      → D.file_exists p (D.run_shell_command cmd d).1 ≡ D.file_exists p d
  pub read_file-run_shell_command :
      (p : String) {cmd : List String} (d : D.State)
      → IsLabelling cmd
      → D.read_file p (D.run_shell_command cmd d).1 ≡ D.read_file p d
  pub exists-kill_all :
      (p q : String) (d : D.State) → D.file_exists p (D.kill_all q d).1 ≡ D.file_exists p d
  pub read_file-kill_all :
      (p q : String) (d : D.State) → D.read_file p (D.kill_all q d).1 ≡ D.read_file p d

see-and_then :
    {A B S V : Type 0} (see : S → V) (v : V) (r : Result A × S) (k : A → S → Result B × S)
    → see r.1 ≡ v
    → ((a : A) (d : S) → see d ≡ v → see (k a d).1 ≡ v)
    → see (and_then r k).1 ≡ v
see-and_then see v (raised e, d) k p q = p
see-and_then see v (returned a, d) k p q = q a d p

-- Where the whole returns, the first call has returned and the rest follows.
and_then-returned :
    {A B S : Type 0} (r : Result A × S) (k : A → S → Result B × S) (b : B)
    → (and_then r k).0 ≡ returned b
    → (a : A) × (r.0 ≡ returned a) × (and_then r k ≡ k a r.1)
and_then-returned (raised e, d) k b p = absurd (cc)
and_then-returned (returned a, d) k b p = (a, refl, refl)

unset_changed : (s : SharedPrefs) → s.changed ≡ false → record s { changed = false } ≡ s
unset_changed s p = ap (λ c. record s { changed = c }) (sym p)

module _ (D : Device) (X : Xml) where
  finish_commit-outcome :
      (s : SharedPrefs) (r : Result (Unit {0}) × D.State)
      → (((finish_commit D X s r).0 ≡ returned tt)
          × ((finish_commit D X s r).1.0 ≡ record s { changed = false }))
        ⊎ (((finish_commit D X s r).0 ≢ returned tt) × ((finish_commit D X s r).1.0 ≡ s))
  finish_commit-outcome s (raised e, d) = inr (λ p. absurd (cc), refl)
  finish_commit-outcome s (returned _, d) = inl (refl, refl)

  -- A commit that raises leaves the collection as it was, with its changes still to be saved; one
  -- that returns leaves the same document with the flag `changed` unset.
  commit-outcome :
      (s : SharedPrefs) (d : D.State)
      → (((commit D X s d).0 ≡ returned tt) × ((commit D X s d).1.0 ≡ record s { changed = false }))
        ⊎ (((commit D X s d).0 ≢ returned tt) × ((commit D X s d).1.0 ≡ s))
  unfolding commit
  commit-outcome s d = elim (Bool-cases s.changed) [
    | inl p ↦ ground (arith, finish_commit-outcome s (save D X s d))
    | inr p ↦ inl (ground arith, ground (arith, unset_changed s p))
  ]

  -- What its later commands do not change, Commit does not change after it has written the file.
  module _ {A : Type 0} (see : D.State → A) (v : A)
      (see-run : (cmd : List String) (d : D.State)
        → IsLabelling cmd
        → see (D.run_shell_command cmd d).1 ≡ see d)
      (see-kill : (p : String) (d : D.State) → see (D.kill_all p d).1 ≡ see d) where
    see-get_security_context :
        (p : String) (d : D.State) → see d ≡ v → see (get_security_context D X p d).1 ≡ v
    unfolding get_security_context
    see-get_security_context p d h =
        see-and_then see v (D.run_shell_command ("ls" ∷ "-Z" ∷ "/data/data/" ∷ []) d)
          (λ lines d1. (find_context p (split_lines lines), d1)) (see-run _ d lists_contexts ∙ h)
          (λ _ _ q. q)

    see-apply_context :
        (s : SharedPrefs) (d : D.State) → see d ≡ v → see (apply_context D X s d).1 ≡ v
    unfolding apply_context
    see-apply_context s d h = elim (Bool-cases (leb marshmallow (D.build_version_sdk d))) [
      | inr p ↦ ground arith
      | inl p ↦
          subst
            (λ b.
              see
                (if b
                  then and_then (get_security_context D X s.package_name d) (chcon D X s)
                  else (returned tt, d)).1
              ≡ v)
            (sym p)
            (see-and_then see v (get_security_context D X s.package_name d) (chcon D X s)
              (see-get_security_context s.package_name d h)
              (elim [
                | none ↦ λ _ q. q
                | some c ↦ λ d1 q.
                    see-and_then see v
                      (D.run_shell_command ("chcon" ∷ "-R" ∷ c ∷ directory s ∷ []) d1)
                      (λ _ d2. (returned tt, d2)) (see-run _ d1 (sets_context c (directory s)) ∙ q)
                      (λ _ _ q2. q2)
              ]))
    ]

    -- After the file is written, the file stays.
    see-save :
        (s : SharedPrefs) (d : D.State)
        → (save D X s d).0 ≡ returned tt
        → ((d1 : D.State)
            → (D.write_file (path s) (document D X s) d1).0 ≡ returned tt
            → see (D.write_file (path s) (document D X s) d1).1 ≡ v)
        → see (save D X s d).1 ≡ v
    unfolding save
    see-save s d p w =
        let made = D.run_shell_command ("mkdir" ∷ "-p" ∷ directory s ∷ []) d in
        let (_, _, q1) = and_then-returned made (save_file D X s) tt p in
        let written = D.write_file (path s) (document D X s) made.1 in
        let (_, h2, q2) =
          and_then-returned written (label_file D X s) tt (ap (λ r. r.0) (sym q1) ∙ p) in
        subst (λ r. see r.1 ≡ v) (sym (q1 ∙ q2))
          (see-and_then see v (apply_context D X s written.1) (λ _ d3. D.kill_all s.package_name d3)
            (see-apply_context s written.1 (w made.1 h2))
            (λ _ d3 q. see-kill s.package_name d3 ∙ q))

  finish_commit-device :
      (s : SharedPrefs) (r : Result (Unit {0}) × D.State) → (finish_commit D X s r).1.1 ≡ r.1
  finish_commit-device s (raised e, d) = refl
  finish_commit-device s (returned _, d) = refl

  finish_commit-returned :
      (s : SharedPrefs) (r : Result (Unit {0}) × D.State)
      → (finish_commit D X s r).0 ≡ returned tt
      → r.0 ≡ returned tt
  finish_commit-returned s (raised e, d) p = absurd (cc)
  finish_commit-returned s (returned _, d) p = refl

  commit-changed :
      (s : SharedPrefs) (d : D.State)
      → s.changed ≡ true
      → commit D X s d ≡ finish_commit D X s (save D X s d)
  unfolding commit
  commit-changed s d p = ground arith

  load-found :
      (s : SharedPrefs) (d : D.State) (text : String) (children : List Element)
      → D.file_exists (path s) d ≡ true
      → D.read_file (path s) d ≡ returned text
      → X.fromstring text ≡ some ("map", children)
      → load D X s d ≡ (returned tt, record s { xml = children; changed = false })
  unfolding load
  load-found s d text children p q r = ground arith

  -- The file as Load sees it
  abbrev file_of : SharedPrefs → D.State → Bool × Result String
  file_of s d = (D.file_exists (path s) d, D.read_file (path s) d)

  -- On a device where ReadFile gives what was written, but for the ends of its lines, and `ls`,
  -- `chcon` and KillAll change no file: where a commit of changes returns, and the xml document with
  -- those ends of its lines is parsed to what was printed, a load of the same file returns the
  -- collection as committed, with the flag `changed` unset.
  pub load-commit :
      (as_read : String → String)
      → IsLawful D as_read
      → (s : SharedPrefs) (d : D.State) → s.changed ≡ true
      → X.fromstring (as_read (document D X s)) ≡ some ("map", s.xml)
      → (commit D X s d).0 ≡ returned tt
      → load D X (new_shared_prefs s.package_name s.filename) (commit D X s d).1.1
        ≡ (returned tt, record s { changed = false })
  load-commit as_read L s d c x p =
      let as_saved = commit-changed s d c in
      let text = as_read (document D X s) in
      let saved =
        see-save (file_of s) (true, returned text)
          (λ cmd d1 h. ground (
            arith,
            L.exists-run_shell_command (path s) d1 h,
            L.read_file-run_shell_command (path s) d1 h,
          ))
          (λ q d1.
            ground (arith, L.exists-kill_all (path s) q d1, L.read_file-kill_all (path s) q d1))
          s d (finish_commit-returned s (save D X s d) (ap (λ r. r.0) (sym as_saved) ∙ p))
          (λ d1 w. ground (
            arith,
            L.exists-write_file (path s) (document D X s) d1 w,
            L.read_file-write_file (path s) (document D X s) d1 w,
          )) in
      let seen =
        ap (λ r. file_of s r.1.1) as_saved
        ∙ ap (file_of s) (finish_commit-device s (save D X s d))
        ∙ saved in
      load-found (new_shared_prefs s.package_name s.filename) (commit D X s d).1.1 text s.xml
        (ap (λ f. f.0) seen) (ap (λ f. f.1) seen) x

  -- Of a collection without changes, such as one just loaded, a property that is removed stays on
  -- the device: Remove takes it from the document and does not set the flag `changed`, and the
  -- commit that follows returns and leaves the device as it was.
  pub commit-remove :
      (key : String) (s : SharedPrefs) (e : Element) (d : D.State)
      → s.changed ≡ false
      → get_child key s.xml ≡ some e
      → (remove key s ≡ (returned tt, record s { xml = drop_child key s.xml }))
        × (commit D X (remove key s).1 d ≡ (returned tt, ((remove key s).1, d)))
  unfolding remove commit
  commit-remove key s e d c p = (ground arith, ground arith)
