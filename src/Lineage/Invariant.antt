-- ===== src/Lineage/Invariant.antt =====
-- The ledger's invariant: each artifact stands under its own identifier, every import is an
-- artifact, and every input of a derivation is one.
use llm_errata.Prelude.{
  ◌≡◌, subst, true, none, some, List, [], ◌∷◌, String, get, put, keys, get-put, keys-put,
  put-IsUnique, IsUnique, contains, select, is_empty, eq_iff, arith,
}
use llm_errata.Errors.{ok}
use llm_errata.Lineage.{
  Artifact, LineageLedger, empty_ledger, register_import, register_derivation, unregistered,
  set_content,
}

pub record IsLedger (l : LineageLedger) : Type 0 where
  pub unique : IsUnique (keys l.artifacts)
  pub unique_roots : IsUnique (keys l.root_of)
  pub keyed : (id : String) (a : Artifact) → get l.artifacts id ≡ some a → a.artifact_id ≡ id
  pub imported :
      (id : String) → contains (keys l.root_of) id ≡ true → contains (keys l.artifacts) id ≡ true
  pub recorded :
      (id : String) (a : Artifact) (item : String)
      → get l.artifacts id ≡ some a
      → contains a.inputs item ≡ true
      → contains (keys l.artifacts) item ≡ true

pub empty_ledger-IsLedger : IsLedger empty_ledger
unfolding get keys contains
empty_ledger-IsLedger = record {
  unique = tt;
  unique_roots = tt;
  keyed = λ id a h. cc;
  imported = λ id h. cc;
  recorded = λ id a item h. cc;
}

pub register_import-IsLedger :
    (root id store content : String) (l : LineageLedger)
    → IsLedger l
    → IsLedger (register_import root id store content l)
unfolding register_import contains
register_import-IsLedger root id store content l v =
    let new : Artifact = record {
      artifact_id = id;
      store = store;
      content = content;
      inputs = [];
      root = some root;
    } in
    record {
      unique = put-IsUnique id new l.artifacts v.unique;
      unique_roots = put-IsUnique id root l.root_of v.unique_roots;
      keyed = λ k a h. ground (arith, get-put id k new l.artifacts, v.keyed k a, eq_iff id k);
      imported = λ k h.
          ground (arith, keys-put id k new l.artifacts, keys-put id k root l.root_of, v.imported k);
      recorded = λ k a item h m. ground (
        arith,
        get-put id k new l.artifacts,
        keys-put id item new l.artifacts,
        v.recorded k a item,
      );
    }

all_registered :
    (l : LineageLedger) (inputs : List String) (item : String)
    → is_empty (unregistered l inputs) ≡ true
    → contains inputs item ≡ true
    → contains (keys l.artifacts) item ≡ true
unfolding unregistered select contains
all_registered l [] item e m = cc
all_registered l (x ∷ inputs) item e m = ground (arith, all_registered l inputs item, eq_iff x item)

put_artifact-IsLedger :
    (new : Artifact) (l : LineageLedger)
    → IsLedger l
    → ((item : String) → contains new.inputs item ≡ true → contains (keys l.artifacts) item ≡ true)
    → IsLedger (record l { artifacts = put new.artifact_id new l.artifacts })
put_artifact-IsLedger new l v inputs =
    let id = new.artifact_id in
    record {
      unique = put-IsUnique id new l.artifacts v.unique;
      unique_roots = v.unique_roots;
      keyed = λ k a h. ground (arith, get-put id k new l.artifacts, v.keyed k a, eq_iff id k);
      imported = λ k h. ground (arith, keys-put id k new l.artifacts, v.imported k);
      recorded = λ k a item h m. ground (
        arith,
        get-put id k new l.artifacts,
        keys-put id item new l.artifacts,
        v.recorded k a item,
        inputs item,
      );
    }

-- A derivation is recorded only if every input is registered already.
pub register_derivation-eq-ok :
    (id store : String) (inputs : List String) (content : String) (l : LineageLedger)
    {l' : LineageLedger}
    → register_derivation id store inputs content l ≡ ok l'
    → (l' ≡ record l {
      artifacts =
          put id
            (record {
              artifact_id = id;
              store = store;
              content = content;
              inputs = inputs;
              root = none;
            })
            l.artifacts;
    })
      × (is_empty (unregistered l inputs) ≡ true)
unfolding register_derivation
register_derivation-eq-ok id store inputs content l h = ground arith

pub register_derivation-IsLedger :
    (id store : String) (inputs : List String) (content : String) (l : LineageLedger)
    {l' : LineageLedger}
    → IsLedger l
    → register_derivation id store inputs content l ≡ ok l'
    → IsLedger l'
register_derivation-IsLedger id store inputs content l v h =
    let (e, known) = register_derivation-eq-ok id store inputs content l h in
    rw e (put_artifact-IsLedger _ l v (λ item m. all_registered l inputs item known m))

pub set_content-eq-ok :
    (id content : String) (l : LineageLedger) {l' : LineageLedger}
    → set_content id content l ≡ ok l'
    → (a : Artifact) × (get l.artifacts id ≡ some a)
      × (l' ≡ record l { artifacts = put id (record a { content = content }) l.artifacts })
unfolding set_content
set_content-eq-ok id content l h = ground arith

pub set_content-IsLedger :
    (id content : String) (l : LineageLedger) {l' : LineageLedger}
    → IsLedger l
    → set_content id content l ≡ ok l'
    → IsLedger l'
set_content-IsLedger id content l v h =
    let (a, here, e) = set_content-eq-ok id content l h in
    let kept =
      put_artifact-IsLedger (record a { content = content }) l v
        (λ item m. v.recorded id a item here m) in
    rw e (
      subst
        (λ k.
          IsLedger (record l { artifacts = put k (record a { content = content }) l.artifacts }))
        (v.keyed id a here) kept)
