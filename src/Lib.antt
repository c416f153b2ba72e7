-- ===== src/Lib.antt =====
-- A model of the core of Crossbill's API (the directory api/src of the repository): invoices with
-- their numbers, taxes, payments, notes, reminders and e-invoices, clients, staff, attendance,
-- payroll, e-signing and sessions, written in TypeScript over NestJS and MongoDB.
--
-- How the code corresponds to the model.
-- A service is a module named for it. Its documents are records, its enums data types, and each
-- handler that writes is one function: it takes the store of the collections that the service
-- writes, and returns the new store with its answer, or the HTTP exception (`Base.Http`); the creations of
-- invoices and notes return the store with an exception too, since a number may be taken by then. A request
-- field that may be absent is an `Option`. What is not in the repository is an argument: Mongoose and
-- MongoDB are the record `Mongo` of `Mongo.Defs`, whose laws are the documented behaviour of each
-- call, and which `Mongo.InMemory` meets; clocks, fresh ids, random values, hashes and providers are
-- arguments of the functions that use them. A handler runs as one step, except that the unique
-- indexes still guard each write, as they do in the database. Exceptions carry the code's message
-- without the values quoted in it.
-- The validation of a schema is modelled where the DTO lets through what the schema refuses after a number
-- was taken: an empty text of an invoice or a note. A service that stops between two writes is modelled for
-- the webhook of payments alone.
--
-- Numbers and texts. Identifiers are only compared, so they are natural numbers (`DocId`). Texts
-- that the code takes apart or puts together are lists of code points (`Base.Text`), others are
-- `String`. Amounts are whole hundredths while the code computes, and texts with two decimals where
-- it stores them (`Base.Money`): below 2^53 the code's doubles round to the same hundredths. Products
-- of quantities, prices and exchange rates are operations of an argument (`Base.Doubles`). A date
-- without time is its day number where the code only compares and shifts dates, which orders them as
-- their ISO texts, and its year, month and day on invoices and notes; an instant is its milliseconds since 1970.
--
-- The files (paths below api/src):
-- Base, Base.*: tests, lists, texts, decimal numbers, amounts, results, and the effect of a write on
--   a list of documents.
-- Mongo.*: the interface to MongoDB.
-- Audit: modules/audit.
-- Employees.*: modules/employees; Defs has the operations, Status and StatusOnly their laws.
-- Lifecycle.*: modules/lifecycle; it changes employees through their service, as the code does, and
--   swallows the exceptions that the code swallows.
-- Numbering.*: modules/invoices/services/invoice-number.service.ts.
-- Gst.*, FinancialYear.*, Fema.*: common/constants/gst.ts, financial-year.ts, fema.ts.
-- Payroll.*: modules/payroll; Requests is the sequence of requests, Writes what each one writes, Totals,
--   Summary, Final, Consistent, Frozen and Late their laws.
-- Agreements.*: modules/agreements; Signing has the documents that the handlers of Handlers and
--   Contract write, Requests the sequence of requests, Writes and TermWrites what each
--   one writes, Evidence, Signed, Gates and Reuse their laws.
-- Aadhaar: modules/aadhaar.
-- Attendance.*: modules/attendance; Overlap and Marks have its laws.
-- Auth.*: modules/auth; Rotation has the laws of refresh tokens.
-- Letters.*: modules/letters; Steps has the law of a change of status.
-- Clients.*, States: modules/clients; common/constants/india-states.ts and compliance.ts.
-- Invoices.*: modules/invoices; Create and Changes have the operations, Outcome how a creation ends,
--   Numbers, Next, Gapless, Settled, Amounts, Charged and Untaxed their laws.
-- Organizations: modules/organizations. Payments.*: modules/payments; Webhook is the webhook, as its
--   two writes, and Once what a repeated delivery does.
-- Reminders.*: modules/reminders; Sweep is the sweep, Writes and Pushes say what it writes, Once what a
--   round of it keeps, and Sweeps what a sequence of them does.
-- EInvoicing.*: modules/einvoicing; Handlers has the operations, Writes and InTime their laws.
-- Notes.*: modules/notes; Create has the operation, Taxes and Outcome its laws.
-- Remittances.*: modules/remittances, and the metadata of uploads in modules/audit; Files is the storage
--   of FIRC documents, Attach has the laws of their upload.
--
-- Loops are recursions on lists. Printing a number takes fuel of one more than the number, as
-- `Base.Decimal` needs it; the days of a leave take fuel of how many they are.
--
-- Not modelled: the handlers of consents, templates and members; controllers, guards'
-- wiring, DTO validation other than what the records' types say, a null given for a field that may be
-- left out, e-mail texts and PDF payloads; and
-- the queries that only read and sort, since they hold no state of their own or belong to the framework.
pub mod Base
pub mod Mongo
pub mod Audit
pub mod Employees
pub mod Gst
pub mod Numbering
pub mod FinancialYear
pub mod Fema
pub mod Lifecycle
pub mod Payroll
pub mod Aadhaar
pub mod Agreements
pub mod Attendance
pub mod Auth
pub mod Letters
pub mod States
pub mod Clients
pub mod Invoices
pub mod Organizations
pub mod Payments
pub mod Reminders
pub mod EInvoicing
pub mod Notes
pub mod Remittances
