-- ===== src/Manifest/Split/Join.antt =====
-- manifest/releaseutil/manifest.go: documents joined by "---" lines are split as they were.
use kube_client.Prelude.{
  ℕ, zero, suc, ◌+◌, ◌≤◌, ◌<◌, Bool, true, false, Option, none, some, List, [], ◌∷◌, ◌++◌, ◌≡◌,
  refl, sym, ap, ◌∙◌, Text, length, All, arith, length-append,
}
use kube_client.Manifest.Split.{
  is_space, is_re_space, trim_left, trim_right, trim_space, skip_spaces, dashes, spaced_dashes,
  sep_at, cut, split_on, split, number_docs, split_manifests, manifest_key,
}

abbrev pub StartsSolid : Text → Type 0
StartsSolid [] = ⊥
StartsSolid (c ∷ s) = is_space c ≡ false

abbrev pub EndsSolid : Text → Type 0
EndsSolid [] = ⊥
EndsSolid (c ∷ []) = is_space c ≡ false
EndsSolid (c ∷ d ∷ s) = EndsSolid (d ∷ s)

-- No line but perhaps the first begins with three dashes.
abbrev pub HasNoRule : Text → Type 0
HasNoRule [] = Unit
HasNoRule (c ∷ s) = (c ≡ 10 → dashes s ≡ none) × HasNoRule s

-- A document: neither end is white space, and no line begins with three dashes.
pub record IsDoc (d : Text) : Type 0 where
  pub starts : StartsSolid d
  pub ends : EndsSolid d
  pub no_rule : HasNoRule d
  pub no_dashes : dashes d ≡ none

re_space-of-space : (c : ℕ) → is_space c ≡ false → is_re_space c ≡ false
unfolding is_space is_re_space
re_space-of-space c h = ground arith

-- A newline behind a text completes no row of dashes.
dashes-newline : (s t : Text) → dashes s ≡ none → dashes (s ++ 10 ∷ t) ≡ none
dashes-newline [] [] h = refl
dashes-newline [] (x ∷ []) h = refl
dashes-newline [] (x ∷ y ∷ t) h = refl
dashes-newline (a ∷ []) [] h = refl
dashes-newline (a ∷ []) (x ∷ t) h = ground arith
dashes-newline (a ∷ b ∷ []) t h = ground arith
dashes-newline (a ∷ b ∷ c ∷ s) t h = ground arith

spaced_dashes-newline :
    (p t : Text) → EndsSolid p → HasNoRule p → spaced_dashes (p ++ 10 ∷ t) ≡ none
unfolding spaced_dashes
spaced_dashes-newline [] t e h = elim e [ ]
spaced_dashes-newline (c ∷ []) t e h = ground (arith, re_space-of-space c e)
spaced_dashes-newline (c ∷ d ∷ s) t e h =
    ground (arith, spaced_dashes-newline (d ∷ s) t e h.1, dashes-newline (d ∷ s) t)

spaced_dashes-doc : (p : Text) → EndsSolid p → HasNoRule p → spaced_dashes p ≡ none
unfolding spaced_dashes
spaced_dashes-doc [] e h = elim e [ ]
spaced_dashes-doc (c ∷ []) e h = ground (arith, re_space-of-space c e)
spaced_dashes-doc (c ∷ d ∷ s) e h = ground (arith, spaced_dashes-doc (d ∷ s) e h.1)

-- The line "---" that joins two documents.
abbrev pub rule : Text → Text
rule t = 10 ∷ b'-' ∷ b'-' ∷ b'-' ∷ 10 ∷ t

skip_spaces-doc : (t : Text) → StartsSolid t → skip_spaces t ≡ t
unfolding skip_spaces
skip_spaces-doc [] h = refl
skip_spaces-doc (c ∷ t) h = ground (arith, re_space-of-space c h)

spaced_dashes-rule : (t : Text) → StartsSolid t → spaced_dashes (rule t) ≡ some t
unfolding spaced_dashes
spaced_dashes-rule t h = ground (arith, skip_spaces-doc t h)

cut_here :
    (b : Bool) (c : ℕ) (s r : Text) → sep_at b (c ∷ s) ≡ some r → cut b (c ∷ s) ≡ ([], some r)
unfolding cut
cut_here b c s r e = rw (e, cut)

cut_later :
    (b : Bool) (c : ℕ) (s : Text)
    → sep_at b (c ∷ s) ≡ none
    → cut b (c ∷ s) ≡ (c ∷ (cut false s).0, (cut false s).1)
unfolding cut
cut_later b c s e = rw (e, cut)

sep_at-start : (b : Bool) (s : Text) → dashes s ≡ none → spaced_dashes s ≡ none → sep_at b s ≡ none
unfolding sep_at
sep_at-start true s d e = rw (d, e)
sep_at-start false s d e = e

sep_at-false : (s : Text) → sep_at false s ≡ spaced_dashes s
unfolding sep_at
sep_at-false s = refl

cut-rule : (t : Text) → StartsSolid t → cut false (rule t) ≡ ([], some t)
cut-rule t h =
    cut_here false 10 (b'-' ∷ b'-' ∷ b'-' ∷ 10 ∷ t) t (sep_at-false _ ∙ spaced_dashes-rule t h)

-- Behind the first character of a document the cut is made at the rule, or nowhere.
cut-doc-rule :
    (p t : Text) → EndsSolid p → HasNoRule p → StartsSolid t → cut false (p ++ rule t) ≡ (p, some t)
cut-doc-rule [] t e h k = elim e [ ]
cut-doc-rule (c ∷ []) t e h k = rw (
  cut_later false c (rule t) (sep_at-false _ ∙ spaced_dashes-newline (c ∷ []) _ e h),
  cut-rule t k,
)
cut-doc-rule (c ∷ d ∷ s) t e h k = rw (
  cut_later false c ((d ∷ s) ++ rule t) (sep_at-false _ ∙ spaced_dashes-newline (c ∷ d ∷ s) _ e h),
  cut-doc-rule (d ∷ s) t e h.1 k,
)

cut-nil : cut false [] ≡ ([], none)
unfolding cut
cut-nil = refl

cut-doc : (p : Text) → EndsSolid p → HasNoRule p → cut false p ≡ (p, none)
cut-doc [] e h = elim e [ ]
cut-doc (c ∷ []) e h =
    rw (cut_later false c [] (sep_at-false _ ∙ spaced_dashes-doc (c ∷ []) e h), cut-nil)
cut-doc (c ∷ d ∷ s) e h = rw (
  cut_later false c (d ∷ s) (sep_at-false _ ∙ spaced_dashes-doc (c ∷ d ∷ s) e h),
  cut-doc (d ∷ s) e h.1,
)

module _ (b : Bool) where
  cut-first-rule : (p t : Text) → IsDoc p → StartsSolid t → cut b (p ++ rule t) ≡ (p, some t)
  cut-first-rule [] t d k = absurd d.starts
  cut-first-rule (c ∷ s) t d k =
      cut_later b c (s ++ rule t) (
        sep_at-start b _ (dashes-newline (c ∷ s) _ d.no_dashes)
          (spaced_dashes-newline (c ∷ s) _ d.ends d.no_rule))
      ∙ sym (
          cut_later false c (s ++ rule t)
            (sep_at-false _ ∙ spaced_dashes-newline (c ∷ s) _ d.ends d.no_rule))
      ∙ cut-doc-rule (c ∷ s) t d.ends d.no_rule k

  cut-first : (p : Text) → IsDoc p → cut b p ≡ (p, none)
  cut-first [] d = absurd d.starts
  cut-first (c ∷ s) d =
      cut_later b c s (sep_at-start b _ d.no_dashes (spaced_dashes-doc (c ∷ s) d.ends d.no_rule))
      ∙ sym (cut_later false c s (sep_at-false _ ∙ spaced_dashes-doc (c ∷ s) d.ends d.no_rule))
      ∙ cut-doc (c ∷ s) d.ends d.no_rule

-- The documents with the line "---" between any two.
unfoldable pub join : Text → List Text → Text
join d [] = d
join d (e ∷ ds) = d ++ rule (join e ds)

join-StartsSolid : (d : Text) (ds : List Text) → StartsSolid d → StartsSolid (join d ds)
unfolding join
join-StartsSolid [] ds h = elim h [ ]
join-StartsSolid (c ∷ d) [] h = h
join-StartsSolid (c ∷ d) (e ∷ ds) h = h

EndsSolid-append : (s t : Text) → EndsSolid t → EndsSolid (s ++ t)
EndsSolid-append [] t h = h
EndsSolid-append (c ∷ []) (x ∷ t) h = h
EndsSolid-append (c ∷ d ∷ s) t h = EndsSolid-append (d ∷ s) t h
EndsSolid-append (c ∷ []) [] h = elim h [ ]

join-EndsSolid :
    (d : Text) (ds : List Text) → EndsSolid d → All EndsSolid ds → EndsSolid (join d ds)
unfolding join
join-EndsSolid d [] h hs = h
join-EndsSolid d (e ∷ ds) h hs =
    EndsSolid-append d (rule (join e ds))
      (EndsSolid-append (rule []) (join e ds) (join-EndsSolid e ds hs.0 hs.1))

-- What a round of `split_on` makes of a cut.
abbrev pieces : ℕ → Text × Option Text → List Text
pieces fuel r = elim r.1 [ none ↦ r.0 ∷ [] | some rest ↦ r.0 ∷ split_on fuel false rest ]

split_on-join :
    (fuel : ℕ) (b : Bool) (d : Text) (ds : List Text)
    → length ds < fuel
    → IsDoc d
    → All IsDoc ds
    → split_on fuel b (join d ds) ≡ d ∷ ds
unfolding split_on join
split_on-join zero b d ds n h hs = absurd (omega arith)
split_on-join (suc fuel) b d [] n h hs = ap (pieces fuel) (cut-first b d h)
split_on-join (suc fuel) b d (e ∷ ds) n h hs =
    ap (pieces fuel) (cut-first-rule b d (join e ds) h (join-StartsSolid e ds hs.0.starts))
    ∙ (ap (λ l. d ∷ l) (split_on-join fuel false e ds (omega arith) hs.0 hs.1))

trim_left-solid : (s : Text) → StartsSolid s → trim_left s ≡ s
unfolding trim_left
trim_left-solid [] h = refl
trim_left-solid (c ∷ s) h = rw h

trim_right-solid : (s : Text) → EndsSolid s → trim_right s ≡ s
unfolding trim_right
trim_right-solid [] h = refl
trim_right-solid (c ∷ []) h = rw h
trim_right-solid (c ∷ d ∷ s) h = rw (trim_right-solid (d ∷ s) h, trim_right)

trim_space-solid : (s : Text) → StartsSolid s → EndsSolid s → trim_space s ≡ s
unfolding trim_space
trim_space-solid s h k = rw (trim_left-solid s h) (trim_right-solid s k)

-- The entries of the map for documents in this order.
unfoldable pub entries : ℕ → List Text → List (Text × Text)
entries i [] = []
entries i (d ∷ ds) = (manifest_key i, d) ∷ entries (i + 1) ds

number_docs-entries : (i : ℕ) (ds : List Text) → All IsDoc ds → number_docs i ds ≡ entries i ds
unfolding number_docs entries
number_docs-entries i [] h = refl
number_docs-entries i ([] ∷ ds) h = absurd h.0.starts
number_docs-entries i ((c ∷ d) ∷ ds) h =
    rw (trim_space-solid (c ∷ d) h.0.starts h.0.ends, number_docs-entries (i + 1) ds h.1)

length-join : (d : Text) (ds : List Text) → length ds ≤ length (join d ds)
unfolding join
length-join d [] = omega arith
length-join d (e ∷ ds) = omega (arith, length-join e ds, length-append d (rule (join e ds)))

All-ends : (ds : List Text) → All IsDoc ds → All EndsSolid ds
All-ends [] h = tt
All-ends (d ∷ ds) h = (h.0.ends, All-ends ds h.1)

-- Documents that are joined by lines "---" come back from `SplitManifests` as they were, the i-th
-- under the key "manifest-i", if each is a document: no white space at either end, and no line of
-- its own that begins with three dashes.
pub split_manifests-join :
    (d : Text) (ds : List Text)
    → All IsDoc (d ∷ ds)
    → split_manifests (join d ds) ≡ entries 0 (d ∷ ds)
unfolding split_manifests split
split_manifests-join d ds h =
    rw
      (
        trim_space-solid (join d ds) (join-StartsSolid d ds h.0.starts)
            (join-EndsSolid d ds h.0.ends (All-ends ds h.1)),
        split_on-join (suc (length (join d ds))) true d ds (omega (arith, length-join d ds)) h.0
            h.1,
      )
      (number_docs-entries 0 (d ∷ ds) h)
