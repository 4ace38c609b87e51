-- ===== src/Lib.antt =====
-- Junando takes alerts, clusters them, deduplicates the clusters, runs rules over them, asks a language
-- model for a diagnosis and notifies a chat. The webhook receives the alerts and publishes them to a queue,
-- the worker runs the pipeline of the core package over the queue's messages, and the ingest package polls
-- other sources. This library models the pipeline and what drives it, and proves what makes each part
-- correct. Paths that do not begin with packages are relative to packages/core/src. A text is a list of code
-- points, each counted as one unit, and case mapping and white space are those of ASCII.
--
-- Domain: the data of domain/entities (alert.ts, cluster.ts, incident.ts, rule.ts) and the alert types of
-- shared/constants.ts. Numbers are natural; a field that may be absent is an option. Payload is
-- `normalizePayload` of application/dtos/normalize-payload.ts.
-- Fingerprint: `Fingerprint.fromAlert` of domain/value-objects/fingerprint.ts. The digest is a parameter.
-- Clustering: domain/services/clustering.service.ts. `build_clusters` is `buildClusters`; the error for
-- an empty group is `none`. The sort is a stable insertion sort, as the standard's is stable.
-- Rules: infrastructure/rules. Condition compiles a rule's condition (condition-evaluator.ts), Actions
-- gathers its actions (action-dispatcher.ts), and Engine picks the first rule that matches
-- (rule-engine.ts).
-- Logger: shared/logger. Json is the values of an event, Builder the builder of a wide event with its
-- size guard (wide-event-builder.ts), Sampling the tail sampling (sampling.ts), and Redaction what is
-- kept of an event before it is written (redaction.ts). The byte length of the serialized event, the
-- clock's text and the random draw are parameters.
-- Dedup: infrastructure/dedup. Memory is the store in memory; Remote is what the Redis and DynamoDB
-- stores make of their services' replies.
-- Notifier: infrastructure/notifier/routing-notifier.ts and infrastructure/rules/channel-registry.ts: the
-- registry of channels, and the deliveries of a message. A notifier is a value of any type. Factory is
-- infrastructure/notifier/factory.ts over shared/factory-registry.ts: the notifier of a configuration, whose
-- file of rules is given by what its parse gives. Slack and Console are infrastructure/notifier/slack.adapter.ts,
-- Teams and Sanitize teams.adapter.ts: a message is a JSON value, and a send is a function of the answer to
-- its request to its end and its effects; Post is what they share, and Counted how a send ends.
-- Incident: application/use-cases/process-incident.use-case.ts. Calls lists the ports' calls, Exec is the
-- monad of code that calls and throws, Process and Pipeline are the stages of a cluster and the loop over
-- clusters, Lifecycle is the order of the calls as an automaton over the history, and Suppressed counts
-- the costly calls. Every port answers by an arbitrary function of the calls made so far, so that each
-- theorem holds for every behaviour of the outside, failures included.
-- Worker: packages/worker/src. Fields and Csv are adapters/csv-input.adapter.ts, the fields of a row and a
-- body as alerts, and Handler is handler.ts, the loop over the records of an event around `execute` of
-- Incident.
-- Worker/Setup is `getUseCase` of handler.ts: what the pipeline is built from, from a configuration.
-- Webhook: packages/webhook/src/handler.ts. A request is a function to its answer and its effects, in order.
-- Effects is what a request does, Signature the check of Slack's signature, Rollback the rollback button, Button
-- the schema of its value, Pressed a press of the button that Slack's adapter renders, and Handler the routes
-- and the publishing. Keyed hashes, the parse of JSON, the schemas and the services'
-- replies are parameters.
-- Ingest: packages/ingest/src. Subscriber is polling/sqs-subscriber.ts as a step relation: the polling loop,
-- the batches that run beside it and the stop come in any order. Mapping is the two mappers of mapping, and
-- Runner is polling/ingest-runner.ts as a step relation, with the check of the rules' names in
-- config/ingest-config.schema.ts; Prometheus is polling/prometheus-ingest-runner.ts likewise, and Keyed what the
-- two share: keys in flight, and the runs under them; and Schema and Config are the
-- rest of config/ingest-config.schema.ts, whose schemas are functions from a value to the value that they give.
-- Service is services/ingest-service.ts.
-- Llm: infrastructure/llm. Shared is shared.ts, an analysis in a model's text by JSON or by patterns, and
-- OpenRouter is openrouter.provider.ts, whose network answers by an arbitrary function of the effects so far.
-- Providers (claude.provider.ts, bedrock.provider.ts, mock.provider.ts), Gemini (gemini.provider.ts) and Gateway
-- (vercel-gateway.provider.ts and factory.ts) are what is made of the vendors' replies and errors, which are
-- parameters, as is the circuit breaker around Gemini.
-- Config: shared/config/index.ts. Env reads single variables, Secrets is the parameter store as a finite
-- exchange of pages, Schema the fields' values and issues, Refine what the fields ask of one another, and Load
-- is `loadConfig`. The schema library is third-party code: the texts of its issues, and whether it runs the
-- refinement behind some issues, are parameters; that it does behind none is a hypothesis.
-- Triage: infrastructure/triage. A reply of the gateway is a parameter.
-- Common: lists, texts, times, maps in insertion order and results that the parts share.
--
-- Every loop over data is a recursion on it, and the two attempts of OpenRouter are a recursion on their
-- number. A number is printed with at most 20 decimal digits, enough for times in milliseconds, or with 8
-- hexadecimal ones, enough for 32 bits; the places of a Prometheus runner's rules are below 10 ^ 20. The concurrent queries for traces of a cluster run one behind the
-- other here; their failures are caught one by one in both.
-- Not modelled: the network clients behind the ports; the clients that the worker opens and the flush of
-- its logs; the pipeline that the webhook runs without a queue, which is one effect; lines that are logged as
-- information; the observer and the restart of the subscriber; the wait of a runner's stop; and metrics other than their counts.
pub mod Common
pub mod Domain
pub mod Fingerprint
pub mod Clustering
pub mod Rules
pub mod Logger
pub mod Dedup
pub mod Notifier
pub mod Incident
pub mod Worker
pub mod Webhook
pub mod Ingest
pub mod Llm
pub mod Config
pub mod Triage
