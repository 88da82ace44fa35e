-- ===== src/Lib.antt =====
-- SRMS, a rental management system: the rules of its server (backend/src).
--
-- The server keeps contracts of rooms, the rent bills of each contract, the payments that tenants
-- make and the settlements of contracts that end. Its services read rows, check them, compute
-- amounts and write rows back in one transaction; the computations are functions of their own.
-- This library models those functions and the transactions that use them:
--
-- Prelude: shared types. Prelude/Int is amounts of money as whole cents, Prelude/Fallible the
--   result of code that may throw, Prelude/Lists and Prelude/Tests the array methods and tests,
--   Prelude/Texts, Prelude/TextOrder and Prelude/Decimal texts and printed numbers, Prelude/Ids
--   sorted lists of distinct ids, Prelude/Decimals the library's decimals as an interface.
-- Calendar: days by JavaScript's UTC date functions, with their day numbers.
-- Payments/Allocation: allocatePayment of backend/src/payments/payment-allocation.ts and
--   resolveAllocationPlan of backend/src/payments/payment-policy.ts.
-- Payments/Adjustment: calculateAdjustedBill of backend/src/payments/adjustment-calculator.ts.
-- Payments/RefundStatus: backend/src/payments/payment-refund-status.ts.
-- Payments/Store: in Tables the tables of backend/prisma/schema.prisma that the services below
--   share, in Guards the checks of backend/src/payments/checkout-supplemental-balance.ts and
--   backend/src/contracts/contract-operability.ts, in Snapshot refreshContractPaymentSnapshot; Rows,
--   Sweep, Counts, Rounds and Sums are about lists of rows.
-- Payments/Adjustments: backend/src/payments/adjustments.service.ts (submit, approve, reject).
-- Payments/Voids: backend/src/payments/void-requests.service.ts (submit, approve, reject);
--   Undo and Steps are the loops of its approval.
-- Checkout/Amounts: backend/src/checkout/checkout-calculation.ts.
-- Checkout/Accounting: the checks of backend/src/checkout/checkout-accounting-validation.ts and the
--   cutoff of backend/src/checkout/checkout-accounting-cutoff.ts.
-- Checkout/RentRefund: backend/src/checkout/checkout-rent-refund-allocation.ts.
-- Checkout/Reservations: backend/src/checkout/checkout-rent-refund-reservations.ts, over RentRefund.
-- Checkout/RefundWriter: applyCheckoutRentRefund of
--   backend/src/checkout/checkout-rent-refund-writer.ts, over Reservations, RefundStatus and the
--   comparison of plans in Checkout/Accounting/RefundPlan.
-- Checkout/Reversal: backend/src/checkout/checkout-completed-reversal.ts and
--   backend/src/checkout/checkout-approved-cancellation.ts, over FutureBills and the tables of
--   RefundWriter; Ledgers is the loops over the deposit, RentRefunds those over rent.
-- Checkout/Deposits: backend/src/checkout/deposits.service.ts.
-- Checkout/FutureBills: backend/src/checkout/checkout-future-bill-normalization.ts.
-- Contracts/Lifecycle: backend/src/contracts/contract-lifecycle.service.ts with
--   backend/src/contracts/contract-room-locks.ts.
-- System/StableJson and System/AuditChain: backend/src/system/security-audit-chain.service.ts.
-- Contracts/Billing: backend/src/contracts/billing-calculator.ts.
-- Contracts/VoidImpact: computeContractVoidImpact and assertBalancedContractVoidImpact of
--   backend/src/contracts/contract-void-impact.ts.
-- Contracts/Validation: backend/src/contracts/contract-validation.ts and
--   backend/src/contracts/contract-room-reconciliation.ts.
--
-- Each has the definitions in its own file, theorems in child modules named for what they prove, and
-- witnesses and runs on concrete data in Examples.
--
-- Conventions. The columns hold decimals of two places, so an amount is an integer number of cents;
-- the amounts of a request to adjust a bill or to record a deposit may have more places, and are
-- values of a parameter type with the operations of Prelude/Decimals, whose rounding is known only by
-- the laws there; where the code divides and rounds (bill_amount, rent_free_amount,
-- fixed_discount_for_period) the quotient is a parameter of which nothing is assumed. A thrown
-- exception is a value of the component's error type. A service's transaction is a function from a
-- database, a record of tables as lists of rows in the order of their ids, to a new one or an
-- exception; an exception leaves no new database, as a rollback does. Row locks, generated receipt
-- numbers, time stamps of bookkeeping and message texts are left out. The columns of a table are
-- those that the modelled code reads or writes. Sorting is stable, as the code's is.
-- The daily job is a sequence of transactions; when one throws, what the earlier ones have committed
-- stays. The digest of the audit chain, the texts of times, of business days and of the amounts in a
-- plan that is compared are parameters. A number in JSON is the text that JavaScript prints for it,
-- and texts are UTF-16 code units without lone surrogates.
--
-- Bounds. The loop of the billing periods runs on fuel, one more than the number of the last day;
-- each round moves on by a day at least, so that between valid dates this is enough. The
-- digits of an id are printed on fuel, one more than the id. All other loops are recursion on a list.
--
-- Not modelled: the other services of payments, checkout and contracts that read and write the
-- same tables by framework queries, their presentation, authentication, files and reports, the
-- database library and the user interface. percentageDiscountAmount is one library multiplication,
-- and the hash of a void impact one library digest.
pub mod Prelude
pub mod Calendar
pub mod Payments
pub mod Checkout
pub mod Contracts
pub mod System
