-- ===== src/Lib.antt =====
-- Models and proofs for the estate-os-service backend (src/ of the repository): a service of bounded
-- contexts that share a process, a database and an event bus.
--
-- Parts and files
--   Base, Dict, Exec, Json    shared names, association lists, methods that raise, JSON values.
--   Uow                       the unit of work (src/*/adapters/database/unit_of_work.py): a block works
--                             on a copy of the tables, and only `commit` makes it durable.
--   Bookings                  src/bookings: Bookings.Model has the domain records, Bookings.Store the
--                             unit of work and the SQL repositories with the keys that the tables
--                             declare, Bookings.Services the slot, booking and applicant services.
--   Contracts                 src/contract_intelligence: Contracts.Status has the transition tables,
--                             Runs, Review, Document, Template and Generated the entities with their
--                             methods, Store the repositories, Documents, Ingestion and Analysis the
--                             services.
--   Organizations             src/organizations: Organizations.Permissions has the roles, Model the
--                             records, Store the in-memory repositories, UseCases and Registration
--                             the use cases.
--   Jobs                      src/shared/jobs: Jobs.Model has the job and its transitions, Store the
--                             in-memory repository, Tracker the tracker's operations.
--   Events                    src/shared/events: Events.Retry has the bounded publish, Events.Bus the
--                             router, the in-memory consumer and the worker's treatment of a message.
--   Listings                  src/listings: Listings.Model has the read model's row, Snapshot the event
--                             payload, Store and Projection the in-memory repository, Cursor the
--                             tokens, Pages the cached list, Handlers the worker's handlers,
--                             Search and Pipeline the search with its pre-filter and its cache.
--   Billing                   src/billing: Billing.Model has the subscription and the price catalog,
--                             Store the in-memory repositories, Webhook the handler of Stripe events,
--                             Checkout the other use cases.
--   Sessions                  src/sessions: Sessions.Model has the session and its transitions,
--                             UseCases the use cases, Cookie the signer and the loading of a session.
--   Strokes                   concrete texts for numbers, for the tests.
--
-- Correspondence
--   A method of a repository or a service is a function of the same name from its arguments and the
--   store to a result and a store: `ok` for a return, `err` for a raise. The ids and the time that the
--   code draws are arguments; log lines are left out. A uuid and a datetime are numbers, since the
--   code only compares them. Ports (the document parser, the LLM, storage, the sending of commands)
--   are parameters that return a result or raise. A `try` statement keeps the objects that its handler sees changed.
--
-- Bounds
--   Every loop is structural recursion over a list. The publish loop runs over the attempts that are
--   left, which start at `_MAX_ATTEMPTS`, as the source's range does.
--
-- Not modelled
--   The identity, properties and screening contexts; the embedding of listings. HTTP routes, settings
--   and dependency wiring; clients of RabbitMQ, SQS, S3, Stripe, Supabase and the language models;
--   migrations, scripts and deployment; the list queries of bookings and organizations. Each database
--   call is atomic here, and two units of work do not interleave.
pub mod Base
pub mod Dict
pub mod Exec
pub mod Uow
pub mod Json
pub mod Bookings
pub mod Contracts
pub mod Organizations
pub mod Jobs
pub mod Events
pub mod Listings
pub mod Billing
pub mod Sessions
pub mod Strokes
