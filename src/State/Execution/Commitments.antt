-- ===== src/State/Execution/Commitments.antt =====
-- state/convert.go: the identifier of an execution result is the hash of a value that holds its chunks'
-- event collections.
use rosetta.Shared.{
  ℕ, ◌≡◌, refl, ap, ap₂, sym, ◌∙◌, ◌&&◌, Option, none, some, List, [], ◌∷◌, Bytes, ◌==◌, leb,
  by_branch, map, some_inj, >>=-eq-some,
}
use rosetta.Shared.Results.{Result, ok, err, crash, ok_inj}
use rosetta.State.Events.{Abort}
use rosetta.State.Execution.{
  ProtoChunk, ProtoResult, FlowChunk, FlowExecutionResult, convert_chunk, convert_chunks,
  convert_execution_result, convert_service_events, derive_execution_result,
  derive_execution_result_v1, derive_execution_result_v2, derive_execution_result_v7,
  derive_execution_result_v8, chunk_with, chunks_to_v1, chunks_to_v7, chunks_to_v8, result_entity,
  counts_left_out, count_of,
}
use rosetta.State.Flow.{Flow, Entity}

-- What stands in the place of the chunks' event collections.
text_of : Entity → Bytes
text_of (Entity.text t) = t
text_of Entity.absent = []
text_of Entity.finish = []
text_of (Entity.name s) = []
text_of (Entity.num n) = []
text_of (Entity.entry x xs) = []

first : Entity → Entity
first (Entity.entry x xs) = x
first (Entity.text t) = Entity.absent
first Entity.absent = Entity.absent
first Entity.finish = Entity.absent
first (Entity.name s) = Entity.absent
first (Entity.num n) = Entity.absent

rest : Entity → Entity
rest (Entity.entry x xs) = xs
rest (Entity.text t) = Entity.absent
rest Entity.absent = Entity.absent
rest Entity.finish = Entity.absent
rest (Entity.name s) = Entity.absent
rest (Entity.num n) = Entity.absent

collections_of : Entity → List Bytes
unfolding text_of first rest
collections_of (Entity.entry x xs) = text_of (first (rest (rest (first x)))) ∷ collections_of xs
collections_of (Entity.text t) = []
collections_of Entity.absent = []
collections_of Entity.finish = []
collections_of (Entity.name s) = []
collections_of (Entity.num n) = []

pub committed : Entity → List Bytes
unfolding collections_of
committed e = collections_of (first (rest (rest e)))

pub events_of : List FlowChunk → List Bytes
events_of = map (λ c. c.event_collection)

collections-v1 : (cs : List FlowChunk) → collections_of (chunks_to_v1 cs) ≡ events_of cs
unfolding chunks_to_v1 collections_of events_of
collections-v1 [] = refl
collections-v1 (c ∷ cs) = ap (λ (t : List Bytes). c.event_collection ∷ t) (collections-v1 cs)

collections-v7 : (cs : List FlowChunk) → collections_of (chunks_to_v7 cs) ≡ events_of cs
unfolding chunks_to_v7 collections_of events_of
collections-v7 [] = refl
collections-v7 (c ∷ cs) = ap (λ (t : List Bytes). c.event_collection ∷ t) (collections-v7 cs)

collections-v8 :
    (cs : List FlowChunk) {x : Entity} → chunks_to_v8 cs ≡ ok x → collections_of x ≡ events_of cs
unfolding chunks_to_v8 collections_of events_of
collections-v8 [] e = ap collections_of (sym (ok_inj e))
collections-v8 (c ∷ cs) e =
    go c.service_event_count (chunks_to_v8 cs) (λ y q. collections-v8 cs {x = y} q) refl e
  where
    go :
        {x : Entity} (n : Option ℕ) (others : Result Abort Entity)
        → ((y : Entity) → chunks_to_v8 cs ≡ ok y → collections_of y ≡ events_of cs)
        → chunks_to_v8 cs ≡ others
        → (elim n [
          | none ↦ crash
          | some k ↦ elim others [
            | crash ↦ crash
            | err e ↦ err e
            | ok xs ↦ ok (Entity.entry (chunk_with (Entity.num k) c) xs)
          ]
        ])
          ≡ ok x
        → collections_of x ≡ events_of (c ∷ cs)
    go none others tail r run = cc
    go (some k) crash tail r run = cc
    go (some k) (err e) tail r run = cc
    go (some k) (ok xs) tail r run =
        ap collections_of (sym (ok_inj run))
        ∙ ap (λ (t : List Bytes). c.event_collection ∷ t) (tail xs r)

module _ (f : Flow) where
  convert_chunks-events :
      (version : ℕ) (cs : List ProtoChunk) {chunks : List FlowChunk}
      → convert_chunks f version cs ≡ some chunks
      → events_of chunks ≡ map f.message_to_identifier (map (λ c. c.event_collection) cs)
  unfolding convert_chunks convert_chunk events_of
  convert_chunks-events version [] e = ap events_of (sym (some_inj e))
  convert_chunks-events version (c ∷ cs) e =
      let (chunk, e1, r1) = >>=-eq-some (convert_chunk f version c) _ e in
      let (chunks, e2, r2) = >>=-eq-some (convert_chunks f version cs) _ r1 in
      let (s, d1, q1) = >>=-eq-some (f.to_state_commitment c.start_state) _ e1 in
      let (t, d2, q2) = >>=-eq-some (f.to_state_commitment c.end_state) _ q1 in
      let (n, d3, q3) = >>=-eq-some (count_of version c.service_event_count) _ q2 in
      let at : f.message_to_identifier c.event_collection ≡ chunk.event_collection =
        ap (λ (k : FlowChunk). k.event_collection) (some_inj q3) in
      ap events_of (sym (some_inj r2))
      ∙ ap₂ (λ (x : Bytes) (xs : List Bytes). x ∷ xs) (sym at) (convert_chunks-events version cs e2)

  pub convert_execution_result-events :
      (version : ℕ) (r : ProtoResult) {exec : FlowExecutionResult f}
      → convert_execution_result f version r ≡ some exec
      → events_of exec.chunks ≡ map f.message_to_identifier (map (λ c. c.event_collection) r.chunks)
  unfolding convert_execution_result
  convert_execution_result-events version r e =
      let (chunks, e1, r1) = >>=-eq-some (convert_chunks f version r.chunks) _ e in
      let (events, e2, r2) = >>=-eq-some (convert_service_events f r.service_events) _ r1 in
      ap (λ (x : FlowExecutionResult f). events_of x.chunks) (sym (some_inj r2))
      ∙ convert_chunks-events version r.chunks e1

  eight :
      (exec : FlowExecutionResult f) {id : Bytes}
      → derive_execution_result_v8 f exec ≡ ok id
      → (x : Entity) × (f.make_id x ≡ id) × (committed x ≡ events_of exec.chunks)
  unfolding derive_execution_result_v8 committed result_entity
  eight exec e = go (chunks_to_v8 exec.chunks) refl e
    where
      go :
          {id : Bytes} (o : Result Abort Entity)
          → chunks_to_v8 exec.chunks ≡ o
          → (elim o [
            | crash ↦ crash
            | err e ↦ err e
            | ok chunks ↦ ok (f.make_id (result_entity f chunks exec))
          ])
            ≡ ok id
          → (x : Entity) × (f.make_id x ≡ id) × (committed x ≡ events_of exec.chunks)
      go crash r run = cc
      go (err e) r run = cc
      go (ok chunks) r run = (_, ok_inj run, collections-v8 exec.chunks r)

  -- What is hashed commits to the chunks' event collections, in every version.
  pub derive_execution_result-committed :
      (version : ℕ) (exec : FlowExecutionResult f) {id : Bytes}
      → derive_execution_result f version exec ≡ ok id
      → (x : Entity) × (f.make_id x ≡ id) × (committed x ≡ events_of exec.chunks)
  unfolding derive_execution_result derive_execution_result_v1 derive_execution_result_v2
      derive_execution_result_v7 derive_execution_result_v8 committed result_entity
  derive_execution_result-committed version exec e =
      by_branch (version == 1) e (λ r. (_, ok_inj r, collections-v1 exec.chunks))
        (λ e2.
          by_branch (leb 2 version && leb version 6) e2
            (λ r. (_, ok_inj r, collections-v1 exec.chunks))
            (λ e3.
              by_branch (version == 7) e3
                (λ r.
                  by_branch (counts_left_out exec.chunks) (ok_inj r)
                    (λ q. (_, q, collections-v1 exec.chunks))
                    (λ q. (_, q, collections-v7 exec.chunks)))
                (λ e4. by_branch (version == 8) e4 (λ r. eight exec r) (λ r. cc))))
