-- ===== src/Manifest/Split/Tests.antt =====
-- Runs of `SplitManifests`.
use kube_client.Prelude.{◌≡◌, refl, [], ◌∷◌, codes}
use kube_client.Manifest.Split.{split, split_manifests, manifest_key}

keys_of : manifest_key 107 ≡ codes "manifest-107"
unfolding manifest_key
keys_of = refl

-- A separator takes the spaces on both sides, its own line's newline among them, so of two in a
-- row the second is no separator and stays at the head of the next document.
two_rules : split (codes "a \n---\n---\nb") ≡ codes "a" ∷ codes "---\nb" ∷ []
unfolding split
two_rules = refl

docs :
    split_manifests (codes "\n---\n# x\n---\nkind: A\n\n--- \nb")
    ≡ (codes "manifest-0", codes "# x")
      ∷ (codes "manifest-1", codes "kind: A")
      ∷ (codes "manifest-2", codes "b")
      ∷ []
unfolding split_manifests
docs = refl
